-- ===== src/History/Filling.antt =====
-- history.ts: items that fit in a frame alone are all packed, into payloads that fit and are as full as
-- the order of the items lets them be.
use remote_pi.Base.{String, ◌≡◌, true, false, Option, List, [], ◌∷◌, All}
use remote_pi.Base.Membership.{In}
use remote_pi.Base.Equality.{nat_eq}
use remote_pi.History.{
  Request, CursorState, HistoryItem, event_item, fragment_item, Payload, Attempt, done, Protocol,
}
use remote_pi.History.Chunking.{no_payload, append_item, fits, goes_in}

module _ (protocol : Protocol) (request : Request) (cursor : CursorState)
    (next_before : Option String) where
  abbrev pub Fits : Payload → Type 0
  Fits p = fits protocol request cursor next_before p ≡ true

  -- The item fits in a frame of its own.
  abbrev pub FitsAlone : HistoryItem → Type 0
  FitsAlone item = fits protocol request cursor next_before (append_item no_payload item) ≡ true

  abbrev pub Contains : Payload → HistoryItem → Type 0
  Contains p (event_item e) = In e p.events
  Contains p (fragment_item f) = In f p.fragments

  -- The second payload has an item that did not go into the first.
  abbrev pub Opens : Payload → Payload → Type 0
  Opens p q =
      (item : HistoryItem) × Contains q item
      × (goes_in protocol request cursor next_before p item ≡ false)

  abbrev pub IsGreedy : List Payload → Type 0
  IsGreedy [] = Unit
  IsGreedy (p ∷ []) = Unit
  IsGreedy (p ∷ q ∷ payloads) = Opens p q × IsGreedy (q ∷ payloads)

  -- There is a result, every payload of it fits, and each opens with an item that did not go into the
  -- one before.
  abbrev pub Filled : Attempt (List Payload) → Type 0
  Filled m = (result : List Payload) × (m ≡ done result) × All Fits result × IsGreedy result
