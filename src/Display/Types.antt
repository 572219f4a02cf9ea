-- ===== src/Display/Types.antt =====
-- stream-display-buffer.ts: items and the functions on single items.
use remote_pi.Base.{
  ℕ, String, Bool, true, false, not, ◌&&◌, ◌||◌, Option, none, some, List, [], ◌∷◌, ◌++◌, is_some,
}
use remote_pi.Base.Equality.{◌==◌, nat_eq, string_eq}

abbrev pub Text : Type 0
Text = List ℕ

pub data PartialKind : Type 0 where
  assistant_partial thinking_partial tool_partial : PartialKind

pub data EventKind : Type 0 where
  user assistant tool provider_error compaction branch_summary custom : EventKind

pub record TimelinePartial : Type 0 where
  pub partial_id : String
  pub group_id : Option String
  pub kind : PartialKind
  pub blocks : Option (List Text)
  pub delta : Option Text

-- `reference` is the object's identity, which `===` compares.
pub record TimelineEvent : Type 0 where
  pub reference : ℕ
  pub event_id : String
  pub group_id : Option String
  pub kind : EventKind
  pub timestamp : ℕ

pub record TimelinePartialView : Type 0 where
  pub partial : TimelinePartial
  pub created_at : ℕ

-- `images` is the identity of the array, `delivery` the place of the value in `PendingDelivery`. The
-- buffer does not read `requestId`, which is left out.
pub record TimelinePending : Type 0 where
  pub id : String
  pub client_request_id : String
  pub text : Text
  pub images : Option ℕ
  pub cancelable : Option Bool
  pub created_at : ℕ
  pub delivery : ℕ
  pub message_id : Option String

pub data TimelineViewItem : Type 0 where
  event_item : TimelineEvent → TimelineViewItem
  pending_item : TimelinePending → TimelineViewItem
  partial_item : TimelinePartialView → TimelineViewItem

abbrev text_eq : Text → Text → Bool
text_eq [] [] = true
text_eq (x ∷ xs) (y ∷ ys) = x == y && text_eq xs ys
text_eq _ _ = false

pub text_equal : Text → Text → Bool
text_equal = text_eq

abbrev join_lines : List Text → Text
join_lines [] = []
join_lines (b ∷ []) = b
join_lines (b ∷ c ∷ bs) = b ++ 10 ∷ join_lines (c ∷ bs)

abbrev pub or_empty : Option Text → Text
or_empty none = []
or_empty (some t) = t

abbrev text_of_blocks : Option (List Text) → Option Text → Text
text_of_blocks none delta = or_empty delta
text_of_blocks (some blocks) delta = join_lines blocks

unfoldable pub partial_text : TimelinePartial → Text
partial_text p = text_of_blocks p.blocks p.delta

abbrev pub has_blocks : TimelinePartial → Bool
has_blocks p = is_some p.blocks

abbrev pub is_tool : PartialKind → Bool
is_tool tool_partial = true
is_tool _ = false

unfoldable pub streams_immediately : TimelinePartial → Bool
streams_immediately p = is_tool p.kind || has_blocks p

unfoldable pub item_id : TimelineViewItem → String
item_id (event_item e) = e.event_id
item_id (pending_item p) = p.client_request_id
item_id (partial_item v) = v.partial.partial_id

unfoldable pub item_time : TimelineViewItem → ℕ
item_time (event_item e) = e.timestamp
item_time (pending_item p) = p.created_at
item_time (partial_item v) = v.created_at

abbrev pub option_eq : Option String → Option String → Bool
option_eq none none = true
option_eq (some a) (some b) = a == b
option_eq _ _ = false

abbrev kinds_match : EventKind → PartialKind → Bool
kinds_match assistant kind = not (is_tool kind)
kinds_match tool kind = is_tool kind
kinds_match _ kind = false

unfoldable pub matches_formal : TimelinePartial → TimelineEvent → Bool
matches_formal p e = option_eq p.group_id e.group_id && kinds_match e.kind p.kind

abbrev option_nat_eq : Option ℕ → Option ℕ → Bool
option_nat_eq none none = true
option_nat_eq (some a) (some b) = a == b
option_nat_eq _ _ = false

abbrev bool_eq : Bool → Bool → Bool
bool_eq true b = b
bool_eq false b = not b

abbrev option_bool_eq : Option Bool → Option Bool → Bool
option_bool_eq none none = true
option_bool_eq (some a) (some b) = bool_eq a b
option_bool_eq _ _ = false

-- The fields that both `sameItem` and `sameNonStreamTokens` compare.
abbrev same_pending : TimelinePending → TimelinePending → Bool
same_pending a b =
    a.client_request_id == b.client_request_id
    && (text_equal a.text b.text
        && (option_nat_eq a.images b.images
            && (a.created_at == b.created_at
                && (a.delivery == b.delivery
                    && (option_bool_eq a.cancelable b.cancelable
                        && option_eq a.message_id b.message_id)))))

unfoldable pub same_item : TimelineViewItem → TimelineViewItem → Bool
unfolding text_equal partial_text
same_item (event_item a) (event_item b) = a.event_id == b.event_id && a.reference == b.reference
same_item (pending_item a) (pending_item b) = same_pending a b
same_item (partial_item a) (partial_item b) =
    a.partial.partial_id == b.partial.partial_id
    && text_equal (partial_text a.partial) (partial_text b.partial)
same_item _ _ = false

unfoldable pub same_items : List TimelineViewItem → List TimelineViewItem → Bool
same_items [] [] = true
same_items (a ∷ as') (b ∷ bs) = same_item a b && same_items as' bs
same_items _ _ = false

pub data NonStreamToken : Type 0 where
  event_token : TimelineEvent → NonStreamToken
  pending_token : TimelinePending → NonStreamToken

unfoldable pub non_stream_tokens : List TimelineViewItem → List NonStreamToken
non_stream_tokens [] = []
non_stream_tokens (event_item e ∷ items) = event_token e ∷ non_stream_tokens items
non_stream_tokens (pending_item p ∷ items) = pending_token p ∷ non_stream_tokens items
non_stream_tokens (partial_item v ∷ items) = non_stream_tokens items

abbrev same_token : NonStreamToken → NonStreamToken → Bool
same_token (event_token a) (event_token b) = a.event_id == b.event_id && a.reference == b.reference
same_token (pending_token a) (pending_token b) = a.id == b.id && same_pending a b
same_token _ _ = false

unfoldable pub same_non_stream_tokens : List NonStreamToken → List NonStreamToken → Bool
unfolding text_equal
same_non_stream_tokens [] [] = true
same_non_stream_tokens (a ∷ as') (b ∷ bs) = same_token a b && same_non_stream_tokens as' bs
same_non_stream_tokens _ _ = false
