-- ===== src/LogManager/Cache.antt =====
-- The cache of recent lines, over a history of calls.
use linux_iot_gateway.Common.{
  ℕ, ◌-◌, ◌≤◌, Bool, List, [], ◌∷◌, ◌++◌, ◌≡◌, refl, ap, subst, sym, ◌∙◌, arith, Bytes, ◌==◌,
  length, drop, take, take-append-drop, length-drop, Bool-cases, inl, inr, append_assoc, append-nil,
}
use linux_iot_gateway.LogManager
use linux_iot_gateway.LogManager.{
  LogManager, new_log_manager, log_line, cache_log_line, erase_oldest, set_console_enabled,
  set_auto_flush, set_max_cached_logs, clear_recent_logs, reset_log_counts,
}
use linux_iot_gateway.LogManager.Last.{erase_oldest-drop, last, cache_log_line-last}
use linux_iot_gateway.LogManager.History.{
  Call, console, auto_flushes, max_cached, logs, clears, resets, apply, run, lines, lines-cons,
}

-- The cached lines are the last of those that were logged, and not more than may be.
pub record IsValid (l : LogManager) (logged : List Bytes) : Type 0 where
  pub older : List Bytes
  pub are_last : logged ≡ older ++ l.recent_logs
  pub bounded : length l.recent_logs ≤ l.max_cached_logs

erased-IsValid :
    (n : ℕ) (older xs logged : List Bytes)
    → logged ≡ older ++ xs
    → (rest : List Bytes) × (logged ≡ rest ++ erase_oldest n xs) × (length (erase_oldest n xs) ≤ n)
erased-IsValid n older xs logged e =
    let k = length xs - n in
    rw (erase_oldest-drop n xs) (
      older ++ take k xs,
      e
          ∙ ap (◌++◌ older) (sym (take-append-drop k xs))
          ∙ sym (append_assoc older (take k xs) (drop k xs)),
      omega (arith, length-drop k xs),
    )

unchanged :
    {l l' : LogManager} {logged : List Bytes}
    → IsValid l logged
    → l'.recent_logs ≡ l.recent_logs
    → l'.max_cached_logs ≡ l.max_cached_logs
    → IsValid l' (logged ++ [])
unchanged {l} {l'} {logged} v same same' = record {
  older = v.older;
  are_last = append-nil logged ∙ v.are_last ∙ ap (◌++◌ v.older) (sym same);
  bounded = omega (arith, ap length same);
}

emptied : (l' : LogManager) (logged : List Bytes) → l'.recent_logs ≡ [] → IsValid l' (logged ++ [])
emptied l' logged e = record {
  older = logged;
  are_last = ap (◌++◌ logged) (sym e);
  bounded = omega (arith, ap length e);
}

max_cached-IsValid :
    (l : LogManager) (n : ℕ) (logged : List Bytes)
    → IsValid l logged
    → IsValid (set_max_cached_logs l n) (logged ++ [])
unfolding set_max_cached_logs
max_cached-IsValid l n logged v = elim (Bool-cases (n == 0)) [
  | inl none_cached ↦ emptied (set_max_cached_logs l n) logged (rw none_cached refl)
  | inr some_cached ↦
      let (rest, are_last, bounded) = erased-IsValid n v.older l.recent_logs logged v.are_last in
      record {
        older = rest;
        are_last = append-nil logged ∙ rw some_cached are_last;
        bounded = rw some_cached bounded;
      }
]

cache_log_line-IsValid :
    (l : LogManager) (line : Bytes) (logged : List Bytes)
    → IsValid l logged
    → IsValid (cache_log_line l line) (logged ++ line ∷ [])
unfolding cache_log_line
cache_log_line-IsValid l line logged v = elim (Bool-cases (l.max_cached_logs == 0)) [
  | inl none_cached ↦
      let no_line : l.recent_logs ≡ [] = no_lines l.recent_logs (ground (arith, v.bounded)) in
      record {
        older = logged ++ line ∷ [];
        are_last = rw (none_cached, no_line) (sym (append-nil (logged ++ line ∷ [])));
        bounded = rw none_cached v.bounded;
      }
  | inr some_cached ↦
      let next =
        ap (λ s. s ++ line ∷ []) v.are_last ∙ append_assoc v.older l.recent_logs (line ∷ []) in
      let (rest, are_last, bounded) =
        erased-IsValid l.max_cached_logs v.older (l.recent_logs ++ line ∷ []) (logged ++ line ∷ [])
          next in
      record { older = rest; are_last = rw some_cached are_last; bounded = rw some_cached bounded }
]
  where
    no_lines : (xs : List Bytes) → length xs ≤ 0 → xs ≡ []
    no_lines [] h = refl
    no_lines (x ∷ xs) h = absurd (omega arith)

apply-IsValid :
    (l : LogManager) (c : Call) (logged : List Bytes)
    → IsValid l logged
    → IsValid (apply l c) (logged ++ lines (c ∷ []))
unfolding apply set_console_enabled set_auto_flush clear_recent_logs reset_log_counts LogManager.log
    LogManager.write_line cache_log_line
apply-IsValid l (console enabled) logged v = unchanged v refl refl
apply-IsValid l (auto_flushes enabled) logged v = unchanged v refl refl
apply-IsValid l (max_cached n) logged v = max_cached-IsValid l n logged v
apply-IsValid l (logs k message) logged v =
    let c = cache_log_line-IsValid l (log_line k message) logged v in
    record { older = c.older; are_last = c.are_last; bounded = c.bounded }
apply-IsValid l clears logged v = emptied (clear_recent_logs l) logged refl
apply-IsValid l resets logged v = unchanged v refl refl

run-IsValid :
    (l : LogManager) (cs : List Call) (logged : List Bytes)
    → IsValid l logged
    → IsValid (run l cs) (logged ++ lines cs)
run-IsValid l [] logged v = unchanged v refl refl
run-IsValid l (c ∷ cs) logged v =
    subst (IsValid (run l (c ∷ cs)))
      (append_assoc logged (lines (c ∷ [])) (lines cs) ∙ ap (◌++◌ logged) (sym (lines-cons c cs)))
      (run-IsValid (apply l c) cs (logged ++ lines (c ∷ [])) (apply-IsValid l c logged v))

-- What is cached by the calls alone, with at most so many lines of which some are held: a limit keeps
-- the last lines, and so does a line that is added.
abbrev pub kept : ℕ → List Bytes → List Call → List Bytes
kept n held [] = held
kept n held (max_cached m ∷ cs) = kept m (last m held) cs
kept n held (logs level message ∷ cs) = kept n (last n (held ++ log_line level message ∷ [])) cs
kept n held (clears ∷ cs) = kept n [] cs
kept n held (_ ∷ cs) = kept n held cs

length_zero : (xs : List Bytes) → length xs ≤ 0 → xs ≡ []
length_zero [] h = refl
length_zero (x ∷ xs) h = absurd (omega arith)

length-last : (n : ℕ) (xs : List Bytes) → length (last n xs) ≤ n
length-last n xs = omega (arith, length-drop (length xs - n) xs)

last-zero : (n : ℕ) (xs : List Bytes) → n ≡ 0 → last n xs ≡ []
last-zero n xs e = length_zero (last n xs) (omega (arith, length-last n xs))

cached_line :
    (l : LogManager) (line : Bytes)
    → length l.recent_logs ≤ l.max_cached_logs
    → (cache_log_line l line).recent_logs ≡ last l.max_cached_logs (l.recent_logs ++ line ∷ [])
unfolding cache_log_line
cached_line l line fits = elim (Bool-cases (l.max_cached_logs == 0)) [
  | inl none_cached ↦
      let zero : l.max_cached_logs ≡ 0 = ground arith in
      rw none_cached (
        length_zero l.recent_logs (omega arith)
        ∙ sym (last-zero l.max_cached_logs (l.recent_logs ++ line ∷ []) zero))
  | inr some_cached ↦ cache_log_line-last l line (ground arith)
]

limited : (l : LogManager) (n : ℕ) → (set_max_cached_logs l n).recent_logs ≡ last n l.recent_logs
unfolding set_max_cached_logs
limited l n = elim (Bool-cases (n == 0)) [
  | inl none_cached ↦ rw none_cached (sym (last-zero n l.recent_logs (ground arith)))
  | inr some_cached ↦ rw some_cached (erase_oldest-drop n l.recent_logs)
]

kept-run :
    (l : LogManager) (cs : List Call)
    → length l.recent_logs ≤ l.max_cached_logs
    → (run l cs).recent_logs ≡ kept l.max_cached_logs l.recent_logs cs
unfolding apply set_console_enabled set_auto_flush clear_recent_logs reset_log_counts LogManager.log
    LogManager.write_line set_max_cached_logs cache_log_line
kept-run l [] fits = refl
kept-run l (console enabled ∷ cs) fits = kept-run (apply l (console enabled)) cs fits
kept-run l (auto_flushes enabled ∷ cs) fits = kept-run (apply l (auto_flushes enabled)) cs fits
kept-run l (max_cached n ∷ cs) fits =
    kept-run (apply l (max_cached n)) cs
      (omega (arith, ap length (limited l n), length-last n l.recent_logs))
    ∙ ap (λ held. kept n held cs) (limited l n)
kept-run l (logs level message ∷ cs) fits =
    let line = log_line level message in
    let cached = cached_line l line fits in
    kept-run (apply l (logs level message)) cs
      (omega (arith, ap length cached, length-last l.max_cached_logs (l.recent_logs ++ line ∷ [])))
    ∙ ap (λ held. kept l.max_cached_logs held cs) cached
kept-run l (clears ∷ cs) fits = kept-run (apply l clears) cs (omega arith)
kept-run l (resets ∷ cs) fits = kept-run (apply l resets) cs fits

-- After any calls on a new manager, the cached lines are the last ones of those that were logged,
-- and no more of them than may be cached; they are exactly those that are left when each line that
-- is logged and each limit that is set keeps as many of the last lines as the limit allows, and a
-- clearing keeps none.
pub run-recent_logs :
    (file_path : Bytes) (opens : Bool) (cs : List Call)
    → IsValid (run (new_log_manager file_path opens) cs) (lines cs)
      × ((run (new_log_manager file_path opens) cs).recent_logs ≡ kept 10 [] cs)
run-recent_logs file_path opens cs = (
  run-IsValid (new_log_manager file_path opens) cs []
      (record { older = []; are_last = refl; bounded = omega arith }),
  kept-run (new_log_manager file_path opens) cs (omega arith),
)
