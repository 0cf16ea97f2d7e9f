-- ===== src/Utf8/Boundary.antt =====
-- Where `completeUtf8PrefixLength` cuts, against an independent description of UTF-8 text.
use mathlib.Core.List.{head-eq_of_cons-eq, tail-eq_of_cons-eq}
use enhanced_ssh.Prelude.{
  ℕ, zero, suc, ◌+◌, ◌-◌, ◌≤◌, ◌<◌, Bool, true, false, ◌&&◌, List, [], ◌∷◌, ◌++◌, ◌≡◌, ◌≢◌, refl,
  ◌⊎◌, inl, inr, ltb, leb, ◌==◌, if◌then◌else◌, length, get_or, arith, append-nil, append_assoc,
  subst, length-append, ap, sym, ◌∙◌,
}
use enhanced_ssh.Utf8.{
  is_continuation, expected_bytes, skip_continuations, cut_at_lead, complete_utf8_prefix_length,
}

-- A byte 10xxxxxx.
abbrev pub IsContinuation : ℕ → Type 0
IsContinuation byte = (0x80 ≤ byte) × (byte ≤ 0xbf)

-- `p` at every number below `n`.
table : (ℕ → Bool) → ℕ → Bool
table p zero = true
table p (suc n) = if p n then table p n else false

table-at : (p : ℕ → Bool) (n byte : ℕ) → byte < n → table p n ≡ true → p byte ≡ true
unfolding table
table-at p zero byte small all_hold = absurd (omega arith)
table-at p (suc n) byte small all_hold = ground (arith, table-at p n byte)

abbrev in_range : ℕ → Bool
in_range x = leb 0x80 x && leb x 0xbf

abbrev same : Bool → Bool → Bool
same true b = b
same false b = if b then false else true

continuation_table : table (λ x. same (is_continuation x) (in_range x)) 256 ≡ true
unfolding table is_continuation
continuation_table = refl

is_continuation-eq : (x : ℕ) → x < 256 → is_continuation x ≡ in_range x
is_continuation-eq x h =
    same→eq (is_continuation x) (in_range x) (table-at _ 256 x h continuation_table)
  where
    same→eq : (a b : Bool) → same a b ≡ true → a ≡ b
    same→eq true true e = refl
    same→eq true false e = cc
    same→eq false true e = cc
    same→eq false false e = refl

-- A well-formed sequence of one to four bytes, by its lead byte.
pub data IsSequence : List ℕ → Type 0 where
  one : {a : ℕ} → a ≤ 0x7f → IsSequence (a ∷ [])
  two : {a b : ℕ} → 0xc2 ≤ a → a ≤ 0xdf → IsContinuation b → IsSequence (a ∷ b ∷ [])
  three :
      {a b c : ℕ}
      → 0xe0 ≤ a
      → a ≤ 0xef
      → IsContinuation b
      → IsContinuation c
      → IsSequence (a ∷ b ∷ c ∷ [])
  four :
      {a b c d : ℕ}
      → 0xf0 ≤ a
      → a ≤ 0xf4
      → IsContinuation b
      → IsContinuation c
      → IsContinuation d
      → IsSequence (a ∷ b ∷ c ∷ d ∷ [])

-- Text is a run of sequences.
pub data IsText : List ℕ → Type 0 where
  empty : IsText []
  more : {s t u : List ℕ} → IsSequence s → IsText t → u ≡ s ++ t → IsText u

abbrev pub AllContinuation : List ℕ → Type 0
AllContinuation [] = Unit
AllContinuation (b ∷ bs) = IsContinuation b × AllContinuation bs

-- A byte that is no continuation byte stops the loop.
abbrev Stops : ℕ → Type 0
Stops byte = is_continuation byte ≡ false

-- The loop walks back over `k` continuation bytes, three at most, to the byte at `i`.
skip_to_lead :
    (buffer : List ℕ) (k i n count total : ℕ)
    → n ≡ suc i + k
    → total ≡ count + k
    → ((j : ℕ) → j < k → is_continuation (get_or buffer (suc i + j) 0) ≡ true)
    → Stops (get_or buffer i 0)
    → total ≤ 3
    → skip_continuations buffer n count ≡ (suc i, total)
unfolding skip_continuations
skip_to_lead buffer k i zero count total e sum inner stop room = absurd (omega arith)
skip_to_lead buffer zero i (suc n) count total e sum inner stop room =
    let e' : n ≡ i = omega arith in rw (e', stop) (ground arith)
skip_to_lead buffer (suc k) i (suc n) count total e sum inner stop room =
    let e' : n ≡ suc i + k = omega arith in
    let here : is_continuation (get_or buffer n 0) ≡ true = rw e' (inner k (omega arith)) in
    let rest =
      skip_to_lead buffer k i n (count + 1) total e' (omega arith) (λ j h. inner j (omega arith))
        stop room in
    rw here (ground arith)

get_or-append_right :
    (xs ys : List ℕ) (j n : ℕ) → n ≡ length xs + j → get_or (xs ++ ys) n 0 ≡ get_or ys j 0
get_or-append_right [] ys j n e = ap (λ k. get_or ys k 0) {x = n} (omega arith)
get_or-append_right (x ∷ xs) ys j zero e = absurd (omega arith)
get_or-append_right (x ∷ xs) ys j (suc n) e = get_or-append_right xs ys j n (omega arith)

continues : (byte : ℕ) → IsContinuation byte → is_continuation byte ≡ true
continues byte h = is_continuation-eq byte (omega arith) ∙ ground arith

stops : (byte : ℕ) → byte < 256 → ¬ IsContinuation byte → is_continuation byte ≡ false
stops byte small h = is_continuation-eq byte small ∙ ground arith

AllContinuation-get_or :
    (bs : List ℕ) (j : ℕ)
    → AllContinuation bs
    → j < length bs
    → is_continuation (get_or bs j 0) ≡ true
AllContinuation-get_or [] j h lt = absurd (omega arith)
AllContinuation-get_or (b ∷ bs) zero h lt = continues b h.0
AllContinuation-get_or (b ∷ bs) (suc j) h lt = AllContinuation-get_or bs j h.1 (omega arith)

after_loop :
    (buffer : List ℕ) (i k : ℕ)
    → skip_continuations buffer (length buffer) 0 ≡ (suc i, k)
    → length buffer ≡ suc i + k
    → complete_utf8_prefix_length buffer
      ≡ (if ltb (1 + k) (expected_bytes (get_or buffer i 0)) then i else length buffer)
unfolding complete_utf8_prefix_length cut_at_lead
after_loop buffer i k e size =
    let e0 : (skip_continuations buffer (length buffer) 0).0 ≡ suc i = ap (λ p. p.0) e in
    let e1 : (skip_continuations buffer (length buffer) 0).1 ≡ k = ap (λ p. p.1) e in
    let available : length buffer - i ≡ 1 + k = omega arith in
    let last : length buffer - i - 1 ≡ k = omega arith in
    let nonempty : (length buffer == 0) ≡ false = ground arith in
    rw (nonempty, e0, e1, available) (ground arith)

-- Whatever stands before it, the last lead byte and its continuation bytes decide the cut.
cut_at_last_lead :
    (before : List ℕ) (lead : ℕ) (rest : List ℕ)
    → lead < 256
    → ¬ IsContinuation lead
    → AllContinuation rest
    → length rest ≤ 3
    → complete_utf8_prefix_length (before ++ lead ∷ rest) ≡ (
        if ltb (1 + length rest) (expected_bytes lead)
        then length before
        else length (before ++ lead ∷ rest))
cut_at_last_lead before lead rest small not_cont all short =
    let buffer : List ℕ = before ++ lead ∷ rest in
    let size : length buffer ≡ suc (length before) + length rest =
      omega (arith, length-append before (lead ∷ rest)) in
    let at_lead : get_or buffer (length before) 0 ≡ lead =
      get_or-append_right before (lead ∷ rest) 0 (length before) (omega arith) in
    let inner : (j : ℕ)
        → j < length rest
        → is_continuation (get_or buffer (suc (length before) + j) 0) ≡ true =
      λ j h.
        rw
          (get_or-append_right before (lead ∷ rest) (suc j) (suc (length before) + j) (omega arith))
          (AllContinuation-get_or rest j all h) in
    let stop : Stops (get_or buffer (length before) 0) = rw at_lead (stops lead small not_cont) in
    let walked =
      skip_to_lead buffer (length rest) (length before) (length buffer) 0 (length rest) size
        (omega arith) inner stop short in
    after_loop buffer (length before) (length rest) walked size
    ∙ ap (λ b. if ltb (1 + length rest) (expected_bytes b) then length before else length buffer)
        at_lead

-- The parts of a sequence: a lead byte that announces the length, and continuation bytes.
record Parts (s : List ℕ) : Type 0 where
  lead : ℕ
  rest : List ℕ
  split : s ≡ lead ∷ rest
  small : lead < 256
  leads : ¬ IsContinuation lead
  all : AllContinuation rest
  announced : expected_bytes lead ≡ 1 + length rest
  short : length rest ≤ 3

IsSequence-Parts : {s : List ℕ} → IsSequence s → Parts s
unfolding expected_bytes
IsSequence-Parts (one {a} h) = record {
  lead = a;
  rest = [];
  split = refl;
  small = omega arith;
  leads = omega arith;
  all = tt;
  announced = ground arith;
  short = omega arith;
}
IsSequence-Parts (two {a} {b} h k hb) = record {
  lead = a;
  rest = b ∷ [];
  split = refl;
  small = omega arith;
  leads = omega arith;
  all = (hb, tt);
  announced = ground arith;
  short = omega arith;
}
IsSequence-Parts (three {a} {b} {c} h k hb hc) = record {
  lead = a;
  rest = b ∷ c ∷ [];
  split = refl;
  small = omega arith;
  leads = omega arith;
  all = (hb, (hc, tt));
  announced = ground arith;
  short = omega arith;
}
IsSequence-Parts (four {a} {b} {c} {d} h k hb hc hd) = record {
  lead = a;
  rest = b ∷ c ∷ d ∷ [];
  split = refl;
  small = omega arith;
  leads = omega arith;
  all = (hb, (hc, (hd, tt)));
  announced = ground arith;
  short = omega arith;
}

-- A buffer that ends with a whole sequence is complete.
complete-sequence :
    (before s : List ℕ)
    → IsSequence s
    → complete_utf8_prefix_length (before ++ s) ≡ length (before ++ s)
complete-sequence before s h =
    let p = IsSequence-Parts h in
    rw p.split (
      cut_at_last_lead before p.lead p.rest p.small p.leads p.all p.short
      ∙ ground (arith, p.announced))

-- A text ends with a whole sequence, or is empty.
IsText-last :
    {t : List ℕ} → IsText t → (t ≡ []) ⊎ ((before s : List ℕ) × IsSequence s × (t ≡ before ++ s))
IsText-last empty = inl refl
IsText-last (more {s} {t} {u} h rest e) = elim (IsText-last rest) [
  | inl nil ↦ inr ([], s, h, e ∙ rw nil (append-nil s))
  | inr (before, last, hl, e') ↦
      inr (s ++ before, last, hl, e ∙ rw e' (sym (append_assoc s before last)))
]

-- Nothing is cut off a whole text.
pub complete-IsText : {t : List ℕ} → IsText t → complete_utf8_prefix_length t ≡ length t
unfolding complete_utf8_prefix_length
complete-IsText {t} h = elim (IsText-last h) [
  | inl nil ↦ rw nil refl
  | inr (before, s, hs, e) ↦ rw e (complete-sequence before s hs)
]

AllContinuation-append_left : (xs ys : List ℕ) → AllContinuation (xs ++ ys) → AllContinuation xs
AllContinuation-append_left [] ys h = tt
AllContinuation-append_left (x ∷ xs) ys h = (h.0, AllContinuation-append_left xs ys h.1)

length-pos_of_ne-nil : (xs : List ℕ) → xs ≢ [] → 0 < length xs
length-pos_of_ne-nil [] h = absurd (h refl)
length-pos_of_ne-nil (x ∷ xs) h = omega arith

-- A text cut inside its next sequence loses exactly the incomplete sequence.
pub complete-cut :
    (t p q : List ℕ)
    → IsSequence (p ++ q)
    → p ≢ []
    → q ≢ []
    → complete_utf8_prefix_length (t ++ p) ≡ length t
complete-cut t [] q h some_p some_q = absurd (some_p refl)
complete-cut t (lead ∷ p) q h some_p some_q =
    let parts = IsSequence-Parts h in
    let e0 : lead ≡ parts.lead = head-eq_of_cons-eq parts.split in
    let e1 : p ++ q ≡ parts.rest = tail-eq_of_cons-eq parts.split in
    let more_left : 0 < length q = length-pos_of_ne-nil q some_q in
    let sizes : length p + length q ≡ length parts.rest = sym (length-append p q) ∙ ap length e1 in
    let announced : expected_bytes lead ≡ 1 + length parts.rest = rw e0 parts.announced in
    cut_at_last_lead t lead p (subst (λ b. b < 256) (sym e0) parts.small)
      (subst (λ b. ¬ IsContinuation b) (sym e0) parts.leads)
      (AllContinuation-append_left p q (rw e1 parts.all)) (omega (arith, parts.short))
    ∙ ground arith
