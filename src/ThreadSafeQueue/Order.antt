-- ===== src/ThreadSafeQueue/Order.antt =====
-- What the consumer does, whatever the order of the turns.
use linux_iot_gateway.Common.{
  Bool, true, false, List, [], ◌∷◌, ◌++◌, ◌≡◌, refl, sym, ap, ◌∙◌, subst, append_assoc, append-nil,
  if◌then◌else◌, Bool-cases, inl, inr,
}
use linux_iot_gateway.ThreadSafeQueue.{
  ThreadSafeQueue, waiting, closed, push, pop_front, wait_and_pop, stop,
}
use linux_iot_gateway.ThreadSafeQueue.Threads.{
  Client, Producer, Consumer, Machine, Turn, producer_turn, consumer_turn, producer_step, popped,
  consumer_step, step, run, new_machine, pushes, has_pushed, pops, holds,
}

abbrev pub to_push : {T : Type 0} → Producer T → List T
to_push (pushes items) = items
to_push (has_pushed item items) = items
to_push _ = []

abbrev pub held : {T : Type 0} → Consumer T → List T
held (holds item) = item ∷ []
held _ = []

-- The queue is stopped exactly when the producer has pushed all.
abbrev pub StopFits : {T : Type 0} → Producer T → Bool → Type 0
StopFits (pushes items) stopped = stopped ≡ false
StopFits (has_pushed item items) stopped = stopped ≡ false
StopFits _ stopped = stopped ≡ true

-- The consumer leaves its loop only when nothing can come any more.
abbrev pub ClosedFits : {T : Type 0} → Consumer T → ThreadSafeQueue T → Type 0
ClosedFits pops q = Unit {0}
ClosedFits (holds item) q = Unit {0}
ClosedFits _ q = (q.stopped ≡ true) × (q.queue ≡ [])

-- What shows of the shared state is changed by `consume` only, and by that as `advance` says.
pub record Observes {T S : Type 0} (client : Client T S) {V : Type 0} (view : S → V)
    (advance : T → V → V) : Type 0 where
  pub pushing_hidden : (item : T) (s : S) → view (client.while_pushing item s) ≡ view s
  pub pushed_hidden : (item : T) (s : S) → view (client.when_pushed item s) ≡ view s
  pub stopped_hidden : (s : S) → view (client.when_stopped s) ≡ view s
  pub consumed : (item : T) (s : S) → view (client.consume item s) ≡ advance item (view s)
  pub closed_hidden : (s : S) → view (client.when_closed s) ≡ view s

-- One item after the other.
abbrev pub in_turn : {T V : Type 0} → (T → V → V) → List T → V → V
in_turn advance [] v = v
in_turn advance (item ∷ items) v = in_turn advance items (advance item v)

in_turn-append :
    {T V : Type 0} (advance : T → V → V) (items : List T) (item : T) (v : V)
    → in_turn advance (items ++ item ∷ []) v ≡ advance item (in_turn advance items v)
in_turn-append advance [] item v = refl
in_turn-append advance (other ∷ items) item v = in_turn-append advance items item (advance other v)

module _ {T S V : Type 0} (client : Client T S) (view : S → V) (advance : T → V → V)
    (laws : Observes client view advance) (all : List T) (v0 : V) where
  -- The items split into those consumed, the one in hand, those in the queue and those to come.
  pub record IsOrdered (p : Producer T) (c : Consumer T) (q : ThreadSafeQueue T) (s : S)
      : Type 0 where
    pub done : List T
    pub splits : all ≡ done ++ (held c ++ (q.queue ++ to_push p))
    pub shows : view s ≡ in_turn advance done v0
    pub stop_fits : StopFits p q.stopped
    pub closed_fits : ClosedFits c q

  abbrev pub Ordered : Machine T S → Type 0
  Ordered m = IsOrdered m.producer m.consumer m.buffer m.shared

  still_open :
      (c : Consumer T) (q q' : ThreadSafeQueue T)
      → q.stopped ≡ false
      → ClosedFits c q
      → ClosedFits c q'
  still_open pops q q' e h = tt
  still_open (holds item) q q' e h = tt
  still_open Consumer.leaves q q' e h = cc
  still_open Consumer.ended q q' e h = cc

  producer-Ordered :
      (p : Producer T) (m : Machine T S)
      → IsOrdered p m.consumer m.buffer m.shared
      → Ordered m
      → Ordered (producer_step client p m)
  unfolding producer_step push stop
  producer-Ordered (pushes (item ∷ items)) m o w = record {
    done = o.done;
    splits =
        o.splits
        ∙ ap (λ t. o.done ++ (held m.consumer ++ t))
            (sym (append_assoc m.buffer.queue (item ∷ []) items));
    shows = laws.pushing_hidden item m.shared ∙ o.shows;
    stop_fits = o.stop_fits;
    closed_fits = still_open m.consumer m.buffer _ o.stop_fits o.closed_fits;
  }
  producer-Ordered (pushes []) m o w = record {
    done = o.done;
    splits = o.splits;
    shows = o.shows;
    stop_fits = refl;
    closed_fits = still_open m.consumer m.buffer _ o.stop_fits o.closed_fits;
  }
  producer-Ordered (has_pushed item items) m o w = record {
    done = o.done;
    splits = o.splits;
    shows = laws.pushed_hidden item m.shared ∙ o.shows;
    stop_fits = o.stop_fits;
    closed_fits = o.closed_fits;
  }
  producer-Ordered Producer.leaves m o w = record {
    done = o.done;
    splits = o.splits;
    shows = laws.stopped_hidden m.shared ∙ o.shows;
    stop_fits = o.stop_fits;
    closed_fits = o.closed_fits;
  }
  producer-Ordered Producer.ended m o w = w

  pop-Ordered :
      (queue : List T) (m : Machine T S)
      → m.buffer.queue ≡ queue
      → IsOrdered m.producer pops m.buffer m.shared
      → Ordered m
      → Ordered (popped client (pop_front queue m.buffer) m)
  unfolding popped pop_front
  pop-Ordered [] m e o w = elim (Bool-cases m.buffer.stopped) [
    | inl stopped ↦
        subst (λ b. Ordered (popped client (m.buffer, if b then closed else waiting) m))
          (sym stopped)
          (record {
            done = o.done;
            splits = o.splits;
            shows = o.shows;
            stop_fits = o.stop_fits;
            closed_fits = (stopped, e);
          })
    | inr open_still ↦
        subst (λ b. Ordered (popped client (m.buffer, if b then closed else waiting) m))
          (sym open_still) w
  ]
  pop-Ordered (item ∷ rest) m e o w = record {
    done = o.done;
    splits = o.splits ∙ ap (λ queue. o.done ++ (queue ++ to_push m.producer)) e;
    shows = o.shows;
    stop_fits = o.stop_fits;
    closed_fits = tt;
  }

  consumer-Ordered :
      (c : Consumer T) (m : Machine T S)
      → IsOrdered m.producer c m.buffer m.shared
      → Ordered m
      → Ordered (consumer_step client c m)
  unfolding consumer_step wait_and_pop
  consumer-Ordered pops m o w = pop-Ordered m.buffer.queue m refl o w
  consumer-Ordered (holds item) m o w = record {
    done = o.done ++ item ∷ [];
    splits =
        o.splits ∙ sym (append_assoc o.done (item ∷ []) (m.buffer.queue ++ to_push m.producer));
    shows =
        laws.consumed item m.shared
        ∙ ap (advance item) o.shows
        ∙ sym (in_turn-append advance o.done item v0);
    stop_fits = o.stop_fits;
    closed_fits = tt;
  }
  consumer-Ordered Consumer.leaves m o w = record {
    done = o.done;
    splits = o.splits;
    shows = laws.closed_hidden m.shared ∙ o.shows;
    stop_fits = o.stop_fits;
    closed_fits = o.closed_fits;
  }
  consumer-Ordered Consumer.ended m o w = w

  step-Ordered : (m : Machine T S) (t : Turn) → Ordered m → Ordered (step client m t)
  unfolding step
  step-Ordered m producer_turn o = producer-Ordered m.producer m o o
  step-Ordered m consumer_turn o = consumer-Ordered m.consumer m o o

  run-Ordered : (ts : List Turn) (m : Machine T S) → Ordered m → Ordered (run client m ts)
  run-Ordered [] m o = o
  run-Ordered (t ∷ ts) m o = run-Ordered ts (step client m t) (step-Ordered m t o)

-- In any order of the turns, the items split into those consumed, the one in hand, those in the
-- queue and those still to be pushed, and what shows of the shared state is what the first of these
-- made of it, one after the other.
pub new_machine-Ordered :
    {T S V : Type 0} (client : Client T S) (view : S → V) (advance : T → V → V)
    → (laws : Observes client view advance) → (items : List T) (s : S) (ts : List Turn)
    → Ordered client view advance laws items (view s) (run client (new_machine items s) ts)
unfolding new_machine
new_machine-Ordered client view advance laws items s ts =
    run-Ordered client view advance laws items (view s) ts (new_machine items s)
      (record { done = []; splits = refl; shows = refl; stop_fits = refl; closed_fits = tt })

nothing_to_push :
    {T : Type 0} (p : Producer T) (b : Bool) → StopFits p b → b ≡ true → to_push p ≡ []
nothing_to_push (pushes items) b h e = cc
nothing_to_push (has_pushed item items) b h e = cc
nothing_to_push Producer.leaves b h e = refl
nothing_to_push Producer.ended b h e = refl

nothing_left :
    {T : Type 0} (p : Producer T) (c : Consumer T) (q : ThreadSafeQueue T)
    → StopFits p q.stopped
    → ClosedFits c q
    → c ≡ Consumer.ended
    → held c ++ (q.queue ++ to_push p) ≡ []
nothing_left p pops q h g e = cc
nothing_left p (holds item) q h g e = cc
nothing_left p Consumer.leaves q h g e = cc
nothing_left p Consumer.ended q h g e =
    ap (λ queue. queue ++ to_push p) g.1 ∙ nothing_to_push p q.stopped h g.0

-- A consumer that has ended has consumed every item, in the order of the pushes.
pub ended-consumed :
    {T S V : Type 0} (client : Client T S) (view : S → V) (advance : T → V → V)
    → Observes client view advance
    → (items : List T) (s : S) (ts : List Turn)
    → (run client (new_machine items s) ts).consumer ≡ Consumer.ended
    → view (run client (new_machine items s) ts).shared ≡ in_turn advance items (view s)
ended-consumed client view advance laws items s ts e =
    let m = run client (new_machine items s) ts in
    let o = new_machine-Ordered client view advance laws items s ts in
    let left = nothing_left m.producer m.consumer m.buffer o.stop_fits o.closed_fits e in
    o.shows
    ∙ ap (λ l. in_turn advance l (view s))
        (sym (append-nil o.done) ∙ ap (λ l. o.done ++ l) (sym left) ∙ sym o.splits)
