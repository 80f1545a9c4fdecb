-- ===== src/Chat/Messages.antt =====
-- The messages of services/chat.tsx and the handlers of the stream's callbacks. A `setMessages`
-- with a function is taken to run when it is called. Where the source throws, the result is
-- `throws`. An id, a role or a model that is no string is read as missing.
pub mod Laws
pub mod Deltas
use toolkit_inference_mesh.Common.{
  if◌then◌else◌, get_or_else, ℕ, Option, none, some, List, [], ◌∷◌, ◌++◌, suc, Bool, true, false,
}
pub use toolkit_inference_mesh.Js.Result.{Result, throws, ok, ◌>>=◌, ok-injective, >>=-eq-ok}
use toolkit_inference_mesh.Js.Text.{Text, lit, text_eq, is_empty, includes, to_lower_case}
use toolkit_inference_mesh.Js.Json.{
  Json, undef, null, num, str, obj, Fields, end, get, arr, Items, nil, cons, or_undef, truthy,
}
use toolkit_inference_mesh.Chat.Helper.Gpt.{parse_generation_gpt, lookup}
use toolkit_inference_mesh.Chat.Helper.Qwen.{parse_generation_qwen}

pub data MessageStatus : Type 0 where
  waiting thinking generating done error : MessageStatus

pub record ChatMessage : Type 0 where
  pub id : Option Text
  pub role : Text
  pub status : MessageStatus
  pub content : Text
  pub raw : Option Text
  pub thinking : Option Text
  pub created_at : Option ℕ

abbrev pub user : Text
user = lit "user"

abbrev pub assistant : Text
assistant = lit "assistant"

-- `onClose`, and `onError` in the same way: the last message is done.
unfoldable pub finish_last : List ChatMessage → Result (List ChatMessage)
finish_last [] = throws
finish_last (m ∷ []) = ok (record m { status = done } ∷ [])
finish_last (m ∷ n ∷ ms) = do rest ← finish_last (n ∷ ms); ok (m ∷ rest)

-- Destructuring: `undefined` and `null` throw, and what is no object has none of the fields.
unfoldable pub fields_of : Json → Result Fields
fields_of undef = throws
fields_of null = throws
fields_of (obj fs) = ok fs
fields_of _ = ok end

abbrev pub as_text : Option Json → Option Text
as_text (some (str s)) = some s
as_text _ = none

abbrev pub as_num : Option Json → Option ℕ
as_num (some (num n)) = some n
as_num _ = none

-- `x || d` at a string that may be missing or empty.
abbrev pub text_or : Option Text → Text → Text
text_or none d = d
text_or (some []) d = d
text_or (some (c ∷ s)) d = c ∷ s

-- The fields of a choice's `delta`, with the default `{}`.
unfoldable pub delta_fields : Json → Result Fields
unfolding fields_of get
delta_fields choice = do
  fs ← fields_of choice
  elim (get (lit "delta") fs) [ none ↦ ok end | some undef ↦ ok end | some d ↦ fields_of d ]

-- What a delta adds: its role and its text, where it has one that is not empty.
unfoldable pub delta_text : Fields → Option (Text × Text)
unfolding get
delta_text fs = elim (get (lit "content") fs) [
  | some (str s) ↦
      (if is_empty s then none else some (text_or (as_text (get (lit "role") fs)) assistant, s))
  | _ ↦ none
]

-- The lines of a chunk that every new message takes.
pub record ChunkInfo : Type 0 where
  pub id : Option Text
  pub created : Option ℕ

unfoldable pub new_message : ChunkInfo → Text → Text → ChatMessage
new_message info role delta = record {
  id = info.id;
  role = role;
  status = thinking;
  content = delta;
  raw = some delta;
  thinking = none;
  created_at = info.created;
}

-- `lastMessage.raw + rawDelta`; a message without `raw` contributes the text "undefined".
unfoldable pub extend_message : ChatMessage → Text → ChatMessage
extend_message m delta =
    let raw = get_or_else m.raw (lit "undefined") ++ delta in
    record m { raw = some raw; content = raw }

-- A delta goes to the last message if that has its role, and else begins a new one.
unfoldable pub add_delta : ChunkInfo → Text → Text → List ChatMessage → List ChatMessage
unfolding new_message extend_message text_eq
add_delta info role delta [] = new_message info role delta ∷ []
add_delta info role delta (m ∷ []) =
    if text_eq m.role role
    then extend_message m delta ∷ []
    else m ∷ new_message info role delta ∷ []
add_delta info role delta (m ∷ n ∷ ms) = m ∷ add_delta info role delta (n ∷ ms)

-- The round of `choices.forEach`; the flag tells whether `next` has changed.
unfoldable pub add_choices :
    ChunkInfo → Items → List ChatMessage × Bool → Result (List ChatMessage × Bool)
unfolding delta_fields delta_text
add_choices info nil next = ok next
add_choices info (cons choice choices) (ms, changed) = do
  fs ← delta_fields choice
  add_choices info choices (elim (delta_text fs) [
    | none ↦ (ms, changed)
    | some (role, delta) ↦ (add_delta info role delta ms, true)
  ])

-- Thinking and content of a generation, by the model's name.
unfoldable pub split_generation : Text → Text → Text × Text
unfolding to_lower_case includes
split_generation model raw =
    let name = to_lower_case model in
    if includes (lit "gpt-oss") name
    then (elim (parse_generation_gpt raw) [
      | none ↦ ([], [])
      | some m ↦
          (get_or_else (lookup (lit "analysis") m) [], get_or_else (lookup (lit "final") m) [])
    ])
    else if includes (lit "qwen") name
    then (elim (parse_generation_qwen raw) [ none ↦ ([], []) | some m ↦ (m.think, m.content) ])
    else ([], raw)

unfoldable pub with_generation : Text → ChatMessage → ChatMessage
with_generation model m =
    let (thinking_text, text) = split_generation model (get_or_else m.raw []) in
    record m {
      status = (if is_empty text then thinking else generating);
      thinking = some thinking_text;
      content = text;
    }

-- The last message is parsed anew.
unfoldable pub reparse_last : Text → List ChatMessage → List ChatMessage
unfolding with_generation
reparse_last model [] = []
reparse_last model (m ∷ []) = with_generation model m ∷ []
reparse_last model (m ∷ n ∷ ms) = m ∷ reparse_last model (n ∷ ms)

abbrev pub reparse_if : Bool → Option Text → List ChatMessage → List ChatMessage
reparse_if true (some model) ms = reparse_last model ms
reparse_if _ _ ms = ms

-- The function that `onMessage` gives to `setMessages`.
unfoldable pub update_messages :
    ChunkInfo → Option Text → Items → List ChatMessage → Result (List ChatMessage)
unfolding add_choices reparse_last
update_messages info model choices ms = do
  next ← add_choices info choices (ms, false)
  ok (reparse_if next.1 model next.0)

-- The list of choices of a chunk: `none` where the source ignores the event. A `choices` that is
-- no list, and yet has a length, throws.
unfoldable pub chunk_choices : Fields → Result (Option Items)
unfolding get text_eq
chunk_choices fs =
    if text_eq (text_or (as_text (get (lit "object") fs)) []) (lit "chat.completion.chunk")
    then (elim (get (lit "choices") fs) [
      | some (arr nil) ↦ ok none
      | some (arr (cons c cs)) ↦ ok (some (cons c cs))
      | some (str (c ∷ s)) ↦ throws
      | some (obj o) ↦ (elim (get (lit "length") o) [ some (num (suc n)) ↦ throws | _ ↦ ok none ])
      | _ ↦ ok none
    ])
    else ok none

-- `choices[0].delta.content`: its truth.
unfoldable pub first_content : Items → Result Bool
unfolding fields_of get
first_content nil = throws
first_content (cons choice choices) = do
  fs ← fields_of choice
  delta ← fields_of (or_undef (get (lit "delta") fs))
  ok (truthy (or_undef (get (lit "content") delta)))

pub data ChatStatus : Type 0 where
  closed opened generating error : ChatStatus

pub record ChatStates : Type 0 where
  pub input : Text
  pub status : ChatStatus
  pub messages : List ChatMessage

-- `onMessage`, on the event's data.
unfoldable pub on_choices : Fields → Items → ChatStates → Result ChatStates
unfolding first_content update_messages
on_choices fs choices s = do
  starts ← first_content choices
  ms ←
      update_messages
        (record { id = as_text (get (lit "id") fs); created = as_num (get (lit "created") fs) })
        (as_text (get (lit "model") fs)) choices s.messages
  ok (record s { status = (if starts then ChatStatus.generating else s.status); messages = ms })

unfoldable pub on_message : Json → ChatStates → Result ChatStates
unfolding chunk_choices on_choices fields_of
on_message payload s = do
  fs ← fields_of payload
  choices ← chunk_choices fs
  elim choices [ none ↦ ok s | some cs ↦ on_choices fs cs s ]

unfoldable pub on_open : ChatStates → ChatStates
on_open s = record s { status = opened }

unfoldable pub on_close : ChatStates → Result ChatStates
unfolding finish_last
on_close s = do ms ← finish_last s.messages; ok (record s { status = closed; messages = ms })

unfoldable pub on_error : ChatStates → Result ChatStates
unfolding finish_last
on_error s = do
  ms ← finish_last s.messages
  ok (record s { status = ChatStatus.error; messages = ms })
