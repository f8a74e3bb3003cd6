-- ===== src/LogManager/Last.antt =====
-- The last lines of a list, and the loop that erases the others.
use linux_iot_gateway.Common.{
  ℕ, suc, ◌+◌, ◌-◌, ◌≤◌, false, List, [], ◌∷◌, ◌++◌, ◌≡◌, refl, ap, sym, ◌∙◌, arith, Bytes, ltb,
  ◌==◌, length, drop, length-drop, drop-drop, drop-empty, drop-append_of_le, length-append,
  Bool-cases, inl, inr, append_assoc, append-nil,
}
use linux_iot_gateway.LogManager
use linux_iot_gateway.LogManager.{
  LogManager, new_log_manager, log_line, cache_log_line, erase_oldest, set_console_enabled,
  set_auto_flush, set_max_cached_logs, clear_recent_logs, reset_log_counts,
}
use linux_iot_gateway.LogManager.History.{Call, logs, apply, run, lines}

-- The loop erases exactly what is too much.
pub erase_oldest-drop : (n : ℕ) (xs : List Bytes) → erase_oldest n xs ≡ drop (length xs - n) xs
unfolding erase_oldest
erase_oldest-drop n [] = sym (drop-empty (0 - n))
erase_oldest-drop n (x ∷ xs) = elim (Bool-cases (ltb n (suc (length xs)))) [
  | inl more ↦
      let size : suc (length xs) - n ≡ suc (length xs - n) = ground arith in
      rw (more, size) (erase_oldest-drop n xs)
  | inr fits ↦ let size : suc (length xs) - n ≡ 0 = ground arith in rw (fits, size) refl
]

-- So many of the last lines.
abbrev pub last : ℕ → List Bytes → List Bytes
last n xs = drop (length xs - n) xs

last-append : (n : ℕ) (xs ys : List Bytes) → last n (last n xs ++ ys) ≡ last n (xs ++ ys)
last-append n xs ys =
    let k = length xs - n in
    let size : length (drop k xs ++ ys) - n + k ≡ length (xs ++ ys) - n =
      omega (arith, length-append (drop k xs) ys, length-append xs ys, length-drop k xs) in
    ap (drop (length (drop k xs ++ ys) - n)) (sym (drop-append_of_le k xs ys (omega arith)))
    ∙ drop-drop (length (drop k xs ++ ys) - n) k (xs ++ ys)
    ∙ ap (λ i. drop i (xs ++ ys)) size

last-short : (n : ℕ) (xs : List Bytes) → length xs ≤ n → last n xs ≡ xs
last-short n xs h = ap (λ k. drop k xs) none_dropped
  where
    none_dropped : length xs - n ≡ 0
    none_dropped = omega arith

abbrev pub logging : List (LogManager.LogLevel × Bytes) → List Call
logging [] = []
logging ((level, message) ∷ ms) = logs level message ∷ logging ms

pub cache_log_line-last :
    (l : LogManager) (line : Bytes)
    → 1 ≤ l.max_cached_logs
    → (cache_log_line l line).recent_logs ≡ last l.max_cached_logs (l.recent_logs ++ line ∷ [])
unfolding cache_log_line
cache_log_line-last l line h =
    let caches : (l.max_cached_logs == 0) ≡ false = ground arith in
    rw caches (erase_oldest-drop l.max_cached_logs (l.recent_logs ++ line ∷ []))

-- Lines that are logged one after another push out the oldest: the cache, if it may hold a line,
-- then holds exactly the last ones of what it held before and of the new lines.
pub logging-recent_logs :
    (l : LogManager) (ms : List (LogManager.LogLevel × Bytes))
    → 1 ≤ l.max_cached_logs
    → length l.recent_logs ≤ l.max_cached_logs
    → (run l (logging ms)).recent_logs
      ≡ last l.max_cached_logs (l.recent_logs ++ lines (logging ms))
unfolding apply LogManager.log LogManager.write_line cache_log_line
logging-recent_logs l [] some_cached fits = sym (
    ap (last l.max_cached_logs) (append-nil l.recent_logs)
    ∙ last-short l.max_cached_logs l.recent_logs fits)
logging-recent_logs l ((level, message) ∷ ms) some_cached fits =
    let l' = apply l (logs level message) in
    let n = l.max_cached_logs in
    let held = l.recent_logs ++ log_line level message ∷ [] in
    let rest = lines (logging ms) in
    let now_held : l'.recent_logs ≡ last n held =
      cache_log_line-last l (log_line level message) some_cached in
    let fits' : length l'.recent_logs ≤ n =
      omega (arith, ap length now_held, length-drop (length held - n) held) in
    logging-recent_logs l' ms some_cached fits'
    ∙ ap (λ r. last n (r ++ rest)) now_held
    ∙ last-append n held rest
    ∙ ap (last n) (append_assoc l.recent_logs (log_line level message ∷ []) rest)
