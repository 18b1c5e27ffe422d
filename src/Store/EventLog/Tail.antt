-- ===== src/Store/EventLog/Tail.antt =====
-- store/eventlog.py, `_last_seq_unlocked`: the loop on windows against a scan of the whole file.
use supervisor_harness.Prelude.{
  ℕ, zero, suc, ◌+◌, ◌-◌, ◌*◌, ◌≤◌, ◌<◌, ◌≡◌, refl, sym, inl, inr, Bool, true, not, Option, none,
  some, List, [], ◌∷◌, ◌++◌, length, is_empty, drop, filter, leb, Bool-cases, Option-cases, arith,
}
use supervisor_harness.Store.Lines.{
  Bytes, lines_of, is_blank, split, IsSuffix, IsSuffix-filter, IsSuffix-trans, split-drop,
}
use supervisor_harness.Store.EventLog.{
  Codec, is_newline, smaller, last_readable, settle, look_back, last_seq_unlocked,
}
use mathlib.Core.List.{tail}

IsSuffix-tail {ℓ} : {A : Type ℓ} (xs : List A) → IsSuffix (tail xs) xs
IsSuffix-tail [] = ([], refl)
IsSuffix-tail (x ∷ xs) = (x ∷ [], refl)

tail-filter {ℓ} :
    {A : Type ℓ} (f : A → Bool) (xs : List A) → IsSuffix (tail (filter f xs)) (filter f (tail xs))
tail-filter f [] = ([], refl)
tail-filter f (x ∷ xs) = elim (Bool-cases (f x)) [
  | inl y ↦ rw (y, filter) ([], refl)
  | inr n ↦ rw (n, filter) (IsSuffix-tail (filter f xs))
]

-- The lines of a window, less the first, end the lines of the file.
pub IsSuffix-window :
    (k : ℕ) (b : Bytes) → IsSuffix (tail (lines_of is_newline (drop k b))) (lines_of is_newline b)
unfolding lines_of
IsSuffix-window k b =
    let keep : Bytes → Bool = λ l. not (is_blank l) in
    let inner = split is_newline (drop k b) in
    let outer = split is_newline b in
    IsSuffix-trans (tail (filter keep inner)) (filter keep (tail inner)) (filter keep outer)
      (tail-filter keep inner)
      (IsSuffix-filter keep (tail inner) outer (
        IsSuffix-trans (tail inner) (tail outer) outer (split-drop is_newline k b)
          (IsSuffix-tail outer)))

settled :
    (o : Option ℕ) (blank : Bool) (wider : Option ℕ)
    → settle true o blank wider ≡ settle true o blank none
unfolding settle
settled none blank wider = refl
settled (some n) blank wider = refl

module _ {Event : Type 0} (codec : Codec Event) where
  pub last_readable-append :
      (p s : List Bytes) (n : ℕ)
      → last_readable codec s ≡ some n
      → last_readable codec (p ++ s) ≡ some n
  unfolding last_readable
  last_readable-append [] s n h = h
  last_readable-append (x ∷ p) s n h = rw (last_readable-append p s n h) refl

  -- What a scan of all lines answers; `none` where there are lines and none carries a number.
  unfoldable pub scan : List Bytes → Option ℕ
  unfolding last_readable settle
  scan ls = settle true (last_readable codec ls) (is_empty ls) none

  pub scan-some :
      (p s : List Bytes) (n : ℕ) → last_readable codec s ≡ some n → scan (p ++ s) ≡ some n
  unfolding scan settle
  scan-some p s n h = rw (last_readable-append p s n h) refl

  -- A window short of the file that finds a number finds the one of the scan.
  window_some :
      (w : ℕ) (b : Bytes) (n : ℕ)
      → last_readable codec (tail (lines_of is_newline (drop (length b - w) b))) ≡ some n
      → scan (lines_of is_newline b) ≡ some n
  window_some w b n h =
      let (p, e) = IsSuffix-window (length b - w) b in
      rw e (scan-some p (tail (lines_of is_newline (drop (length b - w) b))) n h)

  look_back-scan :
      (fuel w : ℕ) (b : Bytes)
      → 1 ≤ w
      → w ≤ length b
      → length b < fuel + w
      → look_back codec fuel w b ≡ scan (lines_of is_newline b)
  unfolding look_back scan settle
  look_back-scan zero w b one fits enough = ground arith
  look_back-scan (suc fuel) w b one fits enough = elim (Bool-cases (leb (length b) w)) [
    | inl whole ↦
        let none_left : length b - w ≡ 0 = ground (arith, whole) in
        rw (whole, none_left)
          (settled (last_readable codec (lines_of is_newline b)) (is_empty (lines_of is_newline b))
            (look_back codec fuel (smaller (length b) (w * 4)) b))
    | inr short ↦
        elim (Option-cases
          (last_readable codec (tail (lines_of is_newline (drop (length b - w) b))))) [
            | inl none_found ↦
                rw (short, none_found)
                  (look_back-scan fuel (smaller (length b) (w * 4)) b (ground (arith, smaller))
                    (ground (arith, smaller)) (ground (arith, smaller)))
            | inr (n, found) ↦ rw (short, found) (sym (window_some w b n found))
          ]
  ]

  -- The number that the windows give is the one of a scan of the whole file, and the loop always
  -- ends with it.
  pub last_seq_unlocked-scan :
      (b : Bytes) → last_seq_unlocked codec b ≡ scan (lines_of is_newline b)
  unfolding last_seq_unlocked scan settle lines_of split is_blank last_readable
  last_seq_unlocked-scan [] = refl
  last_seq_unlocked-scan (c ∷ b) =
      look_back-scan (length (c ∷ b)) (smaller (length (c ∷ b)) 4096) (c ∷ b)
        (ground (arith, smaller)) (ground (arith, smaller)) (ground (arith, smaller))
