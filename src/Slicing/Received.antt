-- ===== src/Slicing/Received.antt =====
-- timeline-transfer.ts: the state of an event whose first fragments have come in order.
use remote_pi.Base.{
  ℕ, zero, suc, ◌+◌, ◌≤◌, ◌<◌, ◌≡◌, refl, true, false, none, some, List, [], ◌∷◌, ◌++◌, arith,
  length, All,
}
use remote_pi.Base.Equality.{◌==◌, nat_eq, string_eq}
use remote_pi.Base.JsMap.{JsMap, get, set, get-set, length-set, All-set}
use remote_pi.Transfer.Types.{
  Bytes, HistoryFragment, FragmentEntry, FragmentState, FragmentStates, max_array_items,
  max_window_bytes,
}
use remote_pi.Transfer.Fragments.{
  no_fragments, or_new, add_fragment, add_new, collect, has_later, mark_final,
}

All_weaken :
    {A : Type 0} (P Q : A → Type 0) → ((a : A) → P a → Q a) → (xs : List A) → All P xs → All Q xs
All_weaken P Q f [] h = tt
All_weaken P Q f (x ∷ xs) h = (f x h.0, All_weaken P Q f xs h.1)

abbrev Below : ℕ → JsMap ℕ FragmentEntry → Type 0
Below n m = All (λ e. e.0 < n) m

get-Below : (n : ℕ) (m : JsMap ℕ FragmentEntry) → Below n m → get m n ≡ none
unfolding get
get-Below n [] h = refl
get-Below n ((j, e) ∷ m) h = ground (arith, get-Below n m)

has_later-Below : (n : ℕ) (m : JsMap ℕ FragmentEntry) → Below n m → has_later n m ≡ false
has_later-Below n [] h = refl
has_later-Below n ((j, e) ∷ m) h = ground (arith, has_later-Below n m)

-- An entry at a later index does not change what is collected.
collect-set :
    (k n : ℕ) (e : FragmentEntry) (m : JsMap ℕ FragmentEntry)
    → k ≤ n
    → collect k (set m n e) ≡ collect k m
unfolding collect
collect-set zero n e m h = refl
collect-set (suc k) n e m h =
    rw (collect-set k n e m (omega arith), get-set m n k e)
      (let later : (n == k) ≡ false = ground arith in rw later refl)

-- The fragments 0 to n - 1 have come, with these bytes, and none of them is the last.
pub record Partial (n : ℕ) (done : Bytes) (st : FragmentState) : Type 0 where
  pub below : Below n st.entries
  pub count : length st.entries ≡ n
  pub collected : collect n st.entries ≡ some done
  pub unfinished : st.final_index ≡ none
  pub size : st.decoded_bytes ≡ length done

pub no_fragments-Partial : Partial 0 [] no_fragments
unfolding collect
no_fragments-Partial = record {
  below = tt;
  count = refl;
  collected = refl;
  unfinished = refl;
  size = refl;
}

-- The state after the next fragment.
abbrev pub next_state : HistoryFragment → Bytes → FragmentState → FragmentState
next_state f bytes st = record {
  entries = set st.entries f.index (record { bytes = bytes; final = f.final });
  final_index = mark_final f st.final_index;
  decoded_bytes = st.decoded_bytes + length bytes;
}

pub add_fragment_next :
    (states : FragmentStates) (f : HistoryFragment) (bytes done : Bytes)
    → Partial f.index done (or_new (get states f.event_id))
    → f.index < max_array_items
    → length done + length bytes ≤ max_window_bytes
    → add_fragment states f bytes
      ≡ (set states f.event_id (next_state f bytes (or_new (get states f.event_id))), none)
unfolding add_fragment add_new
add_fragment_next states f bytes done p few small =
    let st = or_new (get states f.event_id) in
    rw (get-Below f.index st.entries p.below)
      (ground (arith, p.unfinished, p.count, p.size, has_later-Below f.index st.entries p.below))

pub next_state-Partial :
    (f : HistoryFragment) (bytes done : Bytes) (st : FragmentState)
    → Partial f.index done st
    → (length (next_state f bytes st).entries ≡ f.index + 1)
      × (collect (suc f.index) (next_state f bytes st).entries ≡ some (done ++ bytes))
      × Below (f.index + 1) (next_state f bytes st).entries
unfolding collect
next_state-Partial f bytes done st p = (
  rw (length-set st.entries f.index (record { bytes = bytes; final = f.final }))
      (ground (arith, get-Below f.index st.entries p.below, p.count)),
  rw
      (
        collect-set f.index f.index (record { bytes = bytes; final = f.final }) st.entries
            (omega arith),
        p.collected,
        get-set st.entries f.index f.index (record { bytes = bytes; final = f.final }),
      )
      (let same : (f.index == f.index) ≡ true = ground arith in rw same refl),
  All-set (λ e. e.0 < f.index + 1) st.entries f.index _ (omega arith)
      (All_weaken _ _ (λ e. λ below. omega (arith, below)) st.entries p.below),
)
