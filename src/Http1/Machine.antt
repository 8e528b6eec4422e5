-- ===== src/Http1/Machine.antt =====
-- src/proto/http1.rs: the state of `ClientExchange`, and how it queues its events.
use Prim.Native.String.{String}
use rsurl.Base.{
  ℕ, suc, Bool, true, false, ◌||◌, Option, none, some, List, [], ◌∷◌, ◌++◌, if◌then◌else◌, fixed,
  Error, bad_response,
}
use rsurl.Base.Bytes.{Bytes, codes}
use rsurl.Base.Text.{to_upper}
use rsurl.Http1.Head.{Head}

pub data Event : Type 0 where
  response : Head → Bytes → Event
  head_event : Head → Event
  body_event : Bytes → Event
  end_event : Event

pub record ChunkState : Type 0 where
  pub remaining : ℕ
  pub crlf_pending : Bool
  pub in_trailers : Bool
  pub trailer_bytes : ℕ

pub data State : Type 0 where
  in_head : State
  in_length : ℕ → State
  in_chunks : ChunkState → State
  in_eof : State
  finished : State

pub record Exchange : Type 0 where
  pub out : Bytes
  pub method : Bytes
  pub rx : Bytes
  pub state : State
  pub head : Option Head
  pub body : Bytes
  pub body_total : ℕ
  pub events : List Event
  pub streaming : Bool
  pub head_emitted : Bool
  pub interim : ℕ

abbrev pub max_interim_responses : ℕ
max_interim_responses = 32

unfoldable pub build : Bytes → Bytes → Bool → Exchange
build method request_bytes streaming = record {
  out = request_bytes;
  method = to_upper method;
  rx = [];
  state = in_head;
  head = none;
  body = [];
  body_total = 0;
  events = [];
  streaming = streaming;
  head_emitted = false;
  interim = 0;
}

unfoldable pub encode_headers : List (Bytes × Bytes) → Bytes
encode_headers [] = []
encode_headers ((k, v) ∷ more) = k ++ (58 ∷ 32 ∷ (v ++ (13 ∷ 10 ∷ encode_headers more)))

unfoldable pub encode_request : Bytes → Bytes → List (Bytes × Bytes) → Bytes → Bytes
unfolding encode_headers
encode_request method target headers body =
    method
    ++ (32
        ∷ (target
            ++ (codes " HTTP/1.1" ++ (13 ∷ 10 ∷ (encode_headers headers ++ (13 ∷ 10 ∷ body))))))

-- The end of a round: another one, `Ok(())`, an error, or a panic of the code.
pub data Step : Type 0 where
  again : Exchange → Step
  pause : Exchange → Step
  fail : Error → Step
  panicked : Step

abbrev pub fault : String → Step
fault m = fail (bad_response (fixed m))

abbrev emit_head : Bool → Option Head → List Event
emit_head true h = []
emit_head false none = []
emit_head false (some h) = head_event h ∷ []

abbrev emitted_now : Option Head → Bool
emitted_now none = false
emitted_now (some h) = true

abbrev emit_body : Bytes → List Event
emit_body [] = []
emit_body (b ∷ bs) = body_event (b ∷ bs) ∷ []

unfoldable pub emit_streaming : Exchange → Exchange
emit_streaming s = record s {
  events = s.events ++ (emit_head s.head_emitted s.head ++ emit_body s.body);
  head_emitted = s.head_emitted || emitted_now s.head;
  body = [];
}

-- `finish` in buffered mode; the head is expected to be there.
unfoldable pub respond : Option Head → Exchange → Step
respond none s = panicked
respond (some h) s =
    again (record s { events = s.events ++ (response h s.body ∷ []); body = []; state = finished })

-- `finish` in streaming mode.
unfoldable pub end_stream : Exchange → Exchange
unfolding emit_streaming
end_stream s = record (emit_streaming s) {
  events = (emit_streaming s).events ++ (end_event ∷ []);
  state = finished;
}

unfoldable pub finish : Exchange → Step
unfolding end_stream respond
finish s = if s.streaming then again (end_stream s) else respond s.head s

abbrev pub suc_some : Option ℕ → Option ℕ
suc_some none = none
suc_some (some n) = some (suc n)
