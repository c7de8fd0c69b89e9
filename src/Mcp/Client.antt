-- ===== src/Mcp/Client.antt =====
-- client.py of mcp/: requests, their futures, and the loop that reads the responses. The subprocess is
-- outside; each of its lines, its end and its errors is a step. A parsed line keeps the keys that
-- the client reads, and an id that is no number counts as one that nobody waits for.
pub mod Correlation
pub mod Hang
use auditable_scientific_age.Prelude.{
  ℕ, suc, ◌+◌, String, Bool, true, false, not, Option, none, some, List, [], ◌∷◌, ◌++◌, any,
  keep_if, map, if◌then◌else◌, nat_eq, ◌≡◌,
}
use auditable_scientific_age.Prelude.Text.{◌<>◌}

-- The key "result" of a response: its "tools", and the whole in print.
pub record ResponseResult : Type 0 where
  pub tools : Option (List String)
  pub shown : String

pub record Response : Type 0 where
  pub id : Option ℕ
  pub error : Option String
  pub result : Option ResponseResult

pub data Future : Type 0 where
  waiting : Future
  resolved : Response → Future
  failed : String → Future
  cancelled : Future

-- What became of `_read_loop`.
pub data Reader : Type 0 where
  reading ended broken stopped : Reader

-- `futures` holds every future that was created, by its request; the callers wait on them.
pub record AsyncMcpStdioClient : Type 0 where
  pub request_id : ℕ
  pub pending_requests : List ℕ
  pub futures : List (ℕ × Future)
  pub reader : Reader

pub record Request : Type 0 where
  pub id : ℕ
  pub method : String
  pub params : String

-- `start`
abbrev pub started : AsyncMcpStdioClient
started = record { request_id = 0; pending_requests = []; futures = []; reader = Reader.reading }

-- `_send_request` up to its last `await`, with the frame that it writes.
unfoldable pub send_request : String → String → AsyncMcpStdioClient → Request × AsyncMcpStdioClient
send_request method params c =
    let current_id = suc c.request_id in
    (
      record { id = current_id; method = method; params = params },
      record c {
        request_id = current_id;
        pending_requests = c.pending_requests ++ current_id ∷ [];
        futures = c.futures ++ (current_id, Future.waiting) ∷ [];
      },
    )

abbrev pub is_pending : ℕ → List ℕ → Bool
is_pending i ids = any (nat_eq i) ids

-- `if not future.done(): …`
abbrev pub set_if_waiting : Future → Future → Future
set_if_waiting new Future.waiting = new
set_if_waiting new (Future.resolved r) = Future.resolved r
set_if_waiting new (Future.failed e) = Future.failed e
set_if_waiting new Future.cancelled = Future.cancelled

-- The futures that a test on their request selects are set, where they wait.
unfoldable pub set_futures : (ℕ → Bool) → Future → List (ℕ × Future) → List (ℕ × Future)
set_futures test new [] = []
set_futures test new ((i, f) ∷ futures) =
    (i, if test i then set_if_waiting new f else f) ∷ set_futures test new futures

-- One line of the server with an id that is pending.
abbrev pub resolve : ℕ → Response → AsyncMcpStdioClient → AsyncMcpStdioClient
resolve i response c = record c {
  pending_requests = keep_if (λ j. not (nat_eq i j)) c.pending_requests;
  futures = set_futures (nat_eq i) (Future.resolved response) c.futures;
}

unfoldable pub on_response_id : Option ℕ → Response → AsyncMcpStdioClient → AsyncMcpStdioClient
unfolding set_futures
on_response_id none response c = c
on_response_id (some i) response c =
    if is_pending i c.pending_requests then resolve i response c else c

-- The body of the loop, on one line.
unfoldable pub on_line : Response → AsyncMcpStdioClient → AsyncMcpStdioClient
unfolding on_response_id
on_line response c = on_response_id response.id response c

-- `except Exception as e`
unfoldable pub on_error : String → AsyncMcpStdioClient → AsyncMcpStdioClient
unfolding set_futures
on_error e c = record c {
  futures = set_futures (λ i. is_pending i c.pending_requests) (Future.failed e) c.futures;
  reader = Reader.broken;
}

-- The end of the server's output.
abbrev pub on_eof : AsyncMcpStdioClient → AsyncMcpStdioClient
on_eof c = record c { reader = Reader.ended }

-- `stop`, whose cancellation of the reader changes no future
abbrev pub stop : AsyncMcpStdioClient → AsyncMcpStdioClient
stop c = record c { reader = Reader.stopped }

-- A caller that gives up cancels the future that it waits on.
unfoldable pub give_up : ℕ → AsyncMcpStdioClient → AsyncMcpStdioClient
unfolding set_futures
give_up i c = record c { futures = set_futures (nat_eq i) Future.cancelled c.futures }

-- What `call_tool` makes of its response: the result in print, or the exception's message.
pub data CallResult : Type 0 where
  returned : String → CallResult
  raised : String → CallResult

abbrev shown_or_empty : Option ResponseResult → String
shown_or_empty none = "{}"
shown_or_empty (some r) = r.shown

unfoldable pub call_tool_result : Response → CallResult
call_tool_result response = elim response.error [
  | none ↦ returned (shown_or_empty response.result)
  | some e ↦ raised ("MCP call_tool failed: " <> e)
]

pub data ListResult : Type 0 where
  listed : List String → ListResult
  list_raised : String → ListResult

abbrev tools_or_empty : Option (List String) → List String
tools_or_empty none = []
tools_or_empty (some tools) = tools

abbrev tools_of : Option ResponseResult → List String
tools_of none = []
tools_of (some r) = tools_or_empty r.tools

unfoldable pub list_tools_result : Response → ListResult
list_tools_result response = elim response.error [
  | none ↦ listed (tools_of response.result)
  | some e ↦ list_raised ("MCP list_tools failed: " <> e)
]

-- One step of a caller, of the server or of the reader.
pub data Step : AsyncMcpStdioClient → AsyncMcpStdioClient → Type 0 where
  sent :
      (method params : String) (c : AsyncMcpStdioClient) → Step c (send_request method params c).1
  line_read :
      (response : Response) (c : AsyncMcpStdioClient)
      → c.reader ≡ Reader.reading
      → Step c (on_line response c)
  output_ended : (c : AsyncMcpStdioClient) → c.reader ≡ Reader.reading → Step c (on_eof c)
  reader_failed :
      (e : String) (c : AsyncMcpStdioClient) → c.reader ≡ Reader.reading → Step c (on_error e c)
  given_up : (i : ℕ) (c : AsyncMcpStdioClient) → Step c (give_up i c)
  reader_stopped : (c : AsyncMcpStdioClient) → c.reader ≡ Reader.reading → Step c (stop c)

pub data Steps : AsyncMcpStdioClient → AsyncMcpStdioClient → Type 0 where
  start : (c : AsyncMcpStdioClient) → Steps c c
  more : (c c' c'' : AsyncMcpStdioClient) → Steps c c' → Step c' c'' → Steps c c''
