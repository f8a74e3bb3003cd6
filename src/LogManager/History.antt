-- ===== src/LogManager/History.antt =====
-- A history of calls, and what it has counted and written.
use linux_iot_gateway.Common.{
  ℕ, suc, Bool, true, false, List, [], ◌∷◌, ◌++◌, Option, none, some, ◌≡◌, ◌⊎◌, ==_iff, refl, ap,
  sym, ◌∙◌, arith, Bytes, ◌==◌, if◌then◌else◌, Bool-cases, inl, inr, append_assoc, append-nil,
}
use mathlib.Core.Option
use linux_iot_gateway.Common.OrderedMap
use linux_iot_gateway.Common.OrderedMap.{find-assign, find-map_values}
use linux_iot_gateway.LogManager
use linux_iot_gateway.LogManager.{
  LogLevel, info, warning, error, level_key, OutputFile, LogManager, new_log_manager, log_line,
  get_log_count, cache_log_line, set_console_enabled, set_auto_flush, set_max_cached_logs,
  clear_recent_logs, reset_log_counts, flush, write,
}

pub data Call : Type 0 where
  console auto_flushes : Bool → Call
  max_cached : ℕ → Call
  logs : LogLevel → Bytes → Call
  clears resets : Call

unfoldable pub apply : LogManager → Call → LogManager
unfolding LogManager.set_console_enabled LogManager.set_auto_flush LogManager.set_max_cached_logs
    LogManager.log LogManager.clear_recent_logs LogManager.reset_log_counts
apply l (console enabled) = set_console_enabled l enabled
apply l (auto_flushes enabled) = set_auto_flush l enabled
apply l (max_cached n) = set_max_cached_logs l n
apply l (logs level message) = (LogManager.log l level message).0
apply l clears = clear_recent_logs l
apply l resets = reset_log_counts l

abbrev pub run : LogManager → List Call → LogManager
run l [] = l
run l (c ∷ cs) = run (apply l c) cs

-- The lines of a level since the counters were last reset, on top of so many.
abbrev pub counted : LogLevel → ℕ → List Call → ℕ
counted level n [] = n
counted level n (logs k message ∷ cs) =
    counted level (if level_key k == level_key level then suc n else n) cs
counted level n (resets ∷ cs) = counted level 0 cs
counted level n (_ ∷ cs) = counted level n cs

count_zero : (o : Option ℕ) → LogManager.count_of (Option.map (λ _. 0) o) ≡ 0
count_zero none = refl
count_zero (some n) = refl

count-assign :
    (k j : ℕ) (m : List (ℕ × ℕ))
    → LogManager.count_of (
        OrderedMap.find j (OrderedMap.assign k (suc (LogManager.count_of (OrderedMap.find k m))) m))
      ≡ (if k == j
          then suc (LogManager.count_of (OrderedMap.find j m))
          else LogManager.count_of (OrderedMap.find j m))
count-assign k j m =
    ap LogManager.count_of (find-assign k j (suc (LogManager.count_of (OrderedMap.find k m))) m)
    ∙ by_key (Bool-cases (k == j))
  where
    by_key :
        ((k == j) ≡ true) ⊎ ((k == j) ≡ false)
        → LogManager.count_of (
            if k == j
            then some (suc (LogManager.count_of (OrderedMap.find k m)))
            else OrderedMap.find j m)
          ≡ (if k == j
              then suc (LogManager.count_of (OrderedMap.find j m))
              else LogManager.count_of (OrderedMap.find j m))
    by_key (inl same) =
        rw same (ap (λ i. suc (LogManager.count_of (OrderedMap.find i m))) ((==_iff k j).0 same))
    by_key (inr other) = rw other refl

get_log_count-apply :
    (l : LogManager) (c : Call) (level : LogLevel)
    → get_log_count (apply l c) level ≡ counted level (get_log_count l level) (c ∷ [])
unfolding apply LogManager.get_log_count set_console_enabled set_auto_flush set_max_cached_logs
    cache_log_line LogManager.write_line clear_recent_logs reset_log_counts LogManager.log
get_log_count-apply l (console enabled) level = refl
get_log_count-apply l (auto_flushes enabled) level = refl
get_log_count-apply l (max_cached n) level = refl
get_log_count-apply l (logs k message) level =
    count-assign (level_key k) (level_key level) l.log_counts
get_log_count-apply l clears level = refl
get_log_count-apply l resets level =
    ap LogManager.count_of (find-map_values (level_key level) (λ _. 0) l.log_counts)
    ∙ count_zero (OrderedMap.find (level_key level) l.log_counts)

pub get_log_count-log :
    (l : LogManager) (k : LogLevel) (message : Bytes) (level : LogLevel)
    → get_log_count (LogManager.log l k message).0 level ≡ (
        if level_key k == level_key level
        then suc (get_log_count l level)
        else get_log_count l level)
unfolding apply
get_log_count-log l k message level = get_log_count-apply l (logs k message) level

counted-cons :
    (level : LogLevel) (n : ℕ) (c : Call) (cs : List Call)
    → counted level n (c ∷ cs) ≡ counted level (counted level n (c ∷ [])) cs
counted-cons level n (console enabled) cs = refl
counted-cons level n (auto_flushes enabled) cs = refl
counted-cons level n (max_cached m) cs = refl
counted-cons level n (logs k message) cs = refl
counted-cons level n clears cs = refl
counted-cons level n resets cs = refl

-- After any calls, the counter of a level is the number of lines that were logged at that level
-- since the counters were last reset.
pub run-get_log_count :
    (l : LogManager) (cs : List Call) (level : LogLevel)
    → get_log_count (run l cs) level ≡ counted level (get_log_count l level) cs
run-get_log_count l [] level = refl
run-get_log_count l (c ∷ cs) level =
    run-get_log_count (apply l c) cs level
    ∙ ap (λ n. counted level n cs) (get_log_count-apply l c level)
    ∙ sym (counted-cons level (get_log_count l level) c cs)

-- The lines that are logged, in order, and the text of the file.
abbrev pub lines : List Call → List Bytes
lines [] = []
lines (logs level message ∷ cs) = log_line level message ∷ lines cs
lines (_ ∷ cs) = lines cs

abbrev pub text : List Bytes → Bytes
text [] = []
text (line ∷ ls) = (line ++ b'\n' ∷ []) ++ text ls

abbrev pub content : LogManager → Bytes
content l = l.log_file.flushed ++ l.log_file.buffered

pub lines-cons : (c : Call) (cs : List Call) → lines (c ∷ cs) ≡ lines (c ∷ []) ++ lines cs
lines-cons (console enabled) cs = refl
lines-cons (auto_flushes enabled) cs = refl
lines-cons (max_cached m) cs = refl
lines-cons (logs k message) cs = refl
lines-cons clears cs = refl
lines-cons resets cs = refl

text-append : (xs ys : List Bytes) → text (xs ++ ys) ≡ text xs ++ text ys
text-append [] ys = refl
text-append (x ∷ xs) ys =
    ap (◌++◌ (x ++ b'\n' ∷ [])) (text-append xs ys)
    ∙ sym (append_assoc (x ++ b'\n' ∷ []) (text xs) (text ys))

content-write_line :
    (l : LogManager) (line : Bytes)
    → l.log_file.is_open ≡ true
    → content (LogManager.write_line l line) ≡ content l ++ (line ++ b'\n' ∷ [])
unfolding LogManager.write_line flush write
content-write_line l line opened = elim (Bool-cases l.auto_flush) [
  | inl flushes ↦
      rw (opened, flushes)
        (append-nil (l.log_file.flushed ++ (l.log_file.buffered ++ (line ++ b'\n' ∷ [])))
          ∙ sym (append_assoc l.log_file.flushed l.log_file.buffered (line ++ b'\n' ∷ [])))
  | inr keeps ↦
      rw (opened, keeps)
        (sym (append_assoc l.log_file.flushed l.log_file.buffered (line ++ b'\n' ∷ [])))
]

is_open-write_line :
    (l : LogManager) (line : Bytes)
    → (LogManager.write_line l line).log_file.is_open ≡ l.log_file.is_open
unfolding LogManager.write_line flush write
is_open-write_line l line = ground arith

content-apply :
    (l : LogManager) (c : Call)
    → l.log_file.is_open ≡ true
    → (content (apply l c) ≡ content l ++ text (lines (c ∷ [])))
      × ((apply l c).log_file.is_open ≡ true)
unfolding apply set_console_enabled set_auto_flush set_max_cached_logs cache_log_line
    clear_recent_logs reset_log_counts LogManager.log
content-apply l (console enabled) h = (sym (append-nil (content l)), h)
content-apply l (auto_flushes enabled) h = (sym (append-nil (content l)), h)
content-apply l (max_cached n) h = (sym (append-nil (content l)), h)
content-apply l (logs k message) h = (
  content-write_line l (log_line k message) h
      ∙ ap (◌++◌ (content l)) (sym (append-nil (log_line k message ++ b'\n' ∷ []))),
  is_open-write_line l (log_line k message) ∙ h,
)
content-apply l clears h = (sym (append-nil (content l)), h)
content-apply l resets h = (sym (append-nil (content l)), h)

-- An open file takes every line that is logged, in order and each with a newline behind it; what is
-- not flushed is the end of that text.
pub run-content :
    (l : LogManager) (cs : List Call)
    → l.log_file.is_open ≡ true
    → content (run l cs) ≡ content l ++ text (lines cs)
run-content l [] h = sym (append-nil (content l))
run-content l (c ∷ cs) h =
    let (first, h') = content-apply l c h in
    run-content (apply l c) cs h'
    ∙ ap (λ t. t ++ text (lines cs)) first
    ∙ append_assoc (content l) (text (lines (c ∷ []))) (text (lines cs))
    ∙ ap (◌++◌ (content l))
        (sym (text-append (lines (c ∷ [])) (lines cs)) ∙ ap text (sym (lines-cons c cs)))
