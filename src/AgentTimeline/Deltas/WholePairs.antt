-- ===== src/AgentTimeline/Deltas/WholePairs.antt =====
-- runtime.ts: the chunks of a delta are the whole delta, and no surrogate pair is cut.
use remote_pi.Base.{
  ℕ, zero, suc, ◌-◌, ◌<◌, ◌≤◌, min, ◌≡◌, refl, sym, ap, ◌∙◌, inl, inr, Bool, true, false, ◌&&◌,
  Option, none, some, List, [], ◌∷◌, ◌++◌, length, arith, ltb, take, drop, take-append-drop,
  length-take, length-drop, flat_map, Bool-cases,
}
use remote_pi.AgentTimeline.Deltas.{
  Units, max_partial_delta_chars, char_code_at, is_high, is_low, chunk_end, chunks_from,
  partial_delta_chunks,
}

-- A surrogate pair stands across the end of `before` and the start of `after`.
abbrev pub cuts_pair : Units → Units → Bool
cuts_pair before after =
    is_high (char_code_at before (length before - 1)) && is_low (char_code_at after 0)

-- The chunks are a list of pieces of `rest`, in order and with nothing between them or after them,
-- each of 1 to `size` units, with no pair across their ends.
abbrev pub Pieces : ℕ → Units → List Units → Type 0
Pieces size rest [] = rest ≡ []
Pieces size rest (chunk ∷ chunks) =
    (after : Units) × (chunk ++ after ≡ rest)
    × (0 < length chunk)
    × (length chunk ≤ size)
    × (cuts_pair chunk after ≡ false)
    × Pieces size after chunks

char_code_at-drop : (n : ℕ) (units : Units) → char_code_at (drop n units) 0 ≡ char_code_at units n
unfolding drop char_code_at
char_code_at-drop zero [] = refl
char_code_at-drop zero (u ∷ units) = refl
char_code_at-drop (suc n) [] = refl
char_code_at-drop (suc n) (u ∷ units) = char_code_at-drop n units

char_code_at-take :
    (n i : ℕ) (units : Units) → i < n → char_code_at (take n units) i ≡ char_code_at units i
unfolding take char_code_at
char_code_at-take zero i units h = absurd (omega (arith, h))
char_code_at-take (suc n) i [] h = refl
char_code_at-take (suc n) zero (u ∷ units) h = refl
char_code_at-take (suc n) (suc i) (u ∷ units) h = char_code_at-take n i units (omega (arith, h))

-- A unit is not both halves.
high_not_low : (o : Option ℕ) → is_high o ≡ true → is_low o ≡ false
high_not_low none h = refl
high_not_low (some u) h = ground (arith, h)

record EndsWell (size end : ℕ) (rest : Units) : Type 0 where
  some_units : 0 < end
  few_units : end ≤ size
  inside : end ≤ length rest
  whole_pair : (is_high (char_code_at rest (end - 1)) && is_low (char_code_at rest end)) ≡ false

char_code_at-past : (i : ℕ) (units : Units) → length units ≤ i → char_code_at units i ≡ none
unfolding char_code_at
char_code_at-past i [] h = refl
char_code_at-past zero (u ∷ units) h = absurd (omega (arith, h))
char_code_at-past (suc i) (u ∷ units) h = char_code_at-past i units (omega (arith, h))

chunk_end-EndsWell :
    (size : ℕ) (rest : Units)
    → 1 < size
    → 0 < length rest
    → EndsWell size (chunk_end size rest) rest
unfolding chunk_end
chunk_end-EndsWell size rest big some_rest =
    let end = min (length rest) size in
    let high = is_high (char_code_at rest (end - 1)) in
    let low = is_low (char_code_at rest end) in
    elim (Bool-cases (ltb end (length rest) && high && low)) [
      | inl pair ↦ rw pair (
          let before = high_not_low (char_code_at rest (end - 1)) (ground (arith, pair)) in
          record {
            some_units = ground (arith, pair, big);
            few_units = omega (arith, some_rest);
            inside = omega (arith, some_rest);
            whole_pair = ground (arith, before);
          })
      | inr no_pair ↦ rw no_pair (record {
        some_units = omega (arith, some_rest, big);
        few_units = omega arith;
        inside = omega arith;
        whole_pair = elim (Bool-cases (ltb end (length rest))) [
          | inl early ↦ ground (arith, no_pair, early)
          | inr at_end ↦ rw (char_code_at-past end rest (ground (arith, at_end))) (ground arith)
        ];
      })
    ]

take-Pieces :
    (size end : ℕ) (rest : Units) (chunks : List Units)
    → EndsWell size end rest
    → Pieces size (drop end rest) chunks
    → Pieces size rest (take end rest ∷ chunks)
take-Pieces size end rest chunks h pieces =
    let taken : length (take end rest) ≡ end = omega (arith, length-take end rest, h.inside) in
    let last_unit : char_code_at (take end rest) (end - 1) ≡ char_code_at rest (end - 1) =
      char_code_at-take end (end - 1) rest (omega (arith, h.some_units)) in
    (
      drop end rest,
      take-append-drop end rest,
      omega (arith, taken, h.some_units),
      omega (arith, taken, h.few_units),
      rw (taken, last_unit, char_code_at-drop end rest) h.whole_pair,
      pieces,
    )

chunks_from-Pieces :
    (size fuel : ℕ) (rest : Units)
    → 1 < size
    → length rest ≤ fuel
    → Pieces size rest (chunks_from size fuel rest)
unfolding chunks_from
chunks_from-Pieces size zero [] big enough = refl
chunks_from-Pieces size zero (u ∷ rest) big enough = absurd (omega (arith, enough))
chunks_from-Pieces size (suc fuel) [] big enough = refl
chunks_from-Pieces size (suc fuel) (u ∷ rest) big enough =
    let end = chunk_end size (u ∷ rest) in
    let well = chunk_end-EndsWell size (u ∷ rest) big (omega arith) in
    take-Pieces size end (u ∷ rest) (chunks_from size fuel (drop end (u ∷ rest))) well (
      chunks_from-Pieces size fuel (drop end (u ∷ rest)) big
        (omega (arith, length-drop end (u ∷ rest), well.some_units, enough)))

Pieces-whole :
    (size : ℕ) (rest : Units) (chunks : List Units)
    → Pieces size rest chunks
    → flat_map (λ (c : Units). c) chunks ≡ rest
Pieces-whole size rest [] p = sym p
Pieces-whole size rest (chunk ∷ chunks) (after, whole, some_units, few, pairs, pieces) =
    ap (λ r. chunk ++ r) (Pieces-whole size after chunks pieces) ∙ whole

-- The chunks of any delta are pieces of at most 65536 code units, none of them empty, whose ends cut no
-- surrogate pair, and together they are the delta.
pub partial_delta_chunks-Pieces :
    (delta : Units)
    → Pieces max_partial_delta_chars delta (partial_delta_chunks delta)
      × (flat_map (λ (c : Units). c) (partial_delta_chunks delta) ≡ delta)
unfolding partial_delta_chunks
partial_delta_chunks-Pieces delta =
    let pieces =
      chunks_from-Pieces max_partial_delta_chars (length delta) delta (omega arith) (omega arith) in
    (pieces, Pieces-whole max_partial_delta_chars delta (partial_delta_chunks delta) pieces)
