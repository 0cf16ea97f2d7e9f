-- ===== src/Utf8/Cut.antt =====
-- `completeUtf8PrefixLength` on a window of a longer text: the cut falls between two sequences.
use enhanced_ssh.Prelude.{
  ℕ, ◌+◌, ◌-◌, ◌≤◌, ◌<◌, List, [], ◌∷◌, ◌++◌, ◌≡◌, ◌≢◌, refl, ◌⊎◌, inl, inr, length, take, drop,
  arith, append-nil, append_assoc, length-append, length-take, length-drop, take-nil, ap, sym, ◌∙◌,
  subst, take-append-drop, take-append_left, take-append_right, take-length_append,
  drop-length_append,
}
use native.Mathlib.Decide.{dec_le}
use enhanced_ssh.Utf8.{complete_utf8_prefix_length}
use enhanced_ssh.Utf8.Boundary.{IsSequence, IsText, empty, more, complete-IsText, complete-cut}

-- The window that holds the first `n` bytes of `u`: whole sequences, then a part of the next one.
record Window (u : List ℕ) (n : ℕ) : Type 0 where
  whole : List ℕ
  part : List ℕ
  after : List ℕ
  whole_is : IsText whole
  after_is : IsText after
  window : take n u ≡ whole ++ part
  text : u ≡ whole ++ after
  part_is : (part ≡ []) ⊎ ((q : List ℕ) × IsSequence (part ++ q) × (part ≢ []) × (q ≢ []))
  near : length part ≤ 3

sequence_short : {s : List ℕ} → IsSequence s → length s ≤ 4
sequence_short (IsSequence.one h) = omega arith
sequence_short (IsSequence.two h k b) = omega arith
sequence_short (IsSequence.three h k b c) = omega arith
sequence_short (IsSequence.four h k b c d) = omega arith

ne-nil_of_length : (xs : List ℕ) → 0 < length xs → xs ≢ []
ne-nil_of_length [] h e = absurd (omega arith)
ne-nil_of_length (x ∷ xs) h e = absurd (omega (arith, ap length e))

module _ {s t u : List ℕ} (hs : IsSequence s) (ht : IsText t) (e : u ≡ s ++ t) (n : ℕ) where
  -- The window reaches past the first sequence.
  Window-past : (m : ℕ) → n ≡ length s + m → Window t m → Window u n
  Window-past m size w = record {
    whole = s ++ w.whole;
    part = w.part;
    after = w.after;
    whole_is = more hs w.whole_is refl;
    after_is = w.after_is;
    window = rw (e, take-append_right n m s t size, w.window) (sym (append_assoc s w.whole w.part));
    text = e ∙ ap (◌++◌ s) w.text ∙ sym (append_assoc s w.whole w.after);
    part_is = w.part_is;
    near = w.near;
  }

  -- The window ends inside the first sequence.
  Window-inside : n < length s → Window u n
  Window-inside h = record {
    whole = [];
    part = take n s;
    after = u;
    whole_is = empty;
    after_is = more hs ht e;
    window = rw e (take-append_left n s t (omega arith));
    text = refl;
    part_is = elim (dec_le n 0) [
      | yes z ↦ inl (ap (λ k. take k s) {x = n} {y = 0} (omega arith))
      | no nz ↦ inr (
        drop n s,
        subst IsSequence (sym (take-append-drop n s)) hs,
        ne-nil_of_length (take n s) (omega (arith, length-take n s)),
        ne-nil_of_length (drop n s) (omega (arith, length-drop n s)),
      )
    ];
    near = omega (arith, length-take n s, sequence_short hs);
  }

IsText-Window : {u : List ℕ} → IsText u → (n : ℕ) → Window u n
IsText-Window empty n = record {
  whole = [];
  part = [];
  after = [];
  whole_is = empty;
  after_is = empty;
  window = take-nil n;
  text = refl;
  part_is = inl refl;
  near = omega arith;
}
IsText-Window (more {s} {t} hs ht e) n = elim (dec_le (length s) n) [
  | yes h ↦ Window-past hs ht e n (n - length s) (omega arith) (IsText-Window ht (n - length s))
  | no h ↦ Window-inside hs ht e n (omega arith)
]

Window-complete :
    {u : List ℕ} {n : ℕ} (w : Window u n) → complete_utf8_prefix_length (take n u) ≡ length w.whole
Window-complete w = elim w.part_is [
  | inl nil ↦ rw (w.window, nil, append-nil w.whole) (complete-IsText w.whole_is)
  | inr (q, hs, some_part, some_q) ↦ rw w.window (complete-cut w.whole w.part q hs some_part some_q)
]

-- A window of any size over a text is cut between two sequences, at most three bytes from its end.
pub cut_is_boundary :
    {u : List ℕ}
    → IsText u
    → (n : ℕ) → n ≤ length u
    → let k = complete_utf8_prefix_length (take n u) in
      IsText (take k u) × IsText (drop k u) × (k ≤ n) × (n ≤ k + 3)
cut_is_boundary {u} h n fits =
    let w = IsText-Window h n in
    let size : n ≡ length w.whole + length w.part =
      omega (arith, length-take n u, ap length w.window, length-append w.whole w.part) in
    rw (Window-complete w) (
      subst IsText (sym (ap (take (length w.whole)) w.text ∙ take-length_append w.whole w.after))
          w.whole_is,
      subst IsText (sym (ap (drop (length w.whole)) w.text ∙ drop-length_append w.whole w.after))
          w.after_is,
      omega arith,
      omega (arith, w.near),
    )
