-- ===== src/Mcp/Client/Hang.antt =====
-- The callers of a server whose output has ended.
use auditable_scientific_age.Prelude.{
  ℕ, suc, Bool, true, false, Option, none, some, List, [], ◌∷◌, ◌++◌, if◌then◌else◌, nat_eq, ◌≡◌,
  ◌≢◌, arith,
}
use auditable_scientific_age.Mcp.Client.{
  AsyncMcpStdioClient, Future, Reader, send_request, on_eof, set_futures, give_up, Step, Steps,
}

-- No response and no failure.
abbrev pub is_unsettled : Future → Bool
is_unsettled Future.waiting = true
is_unsettled (Future.resolved r) = false
is_unsettled (Future.failed e) = false
is_unsettled Future.cancelled = true

-- The first future of request `i`.
abbrev pub future_of : ℕ → List (ℕ × Future) → Option Future
future_of i [] = none
future_of i ((j, f) ∷ futures) = if nat_eq i j then some f else future_of i futures

abbrev pub unsettled? : Option Future → Bool
unsettled? none = false
unsettled? (some f) = is_unsettled f

-- The request has a future, without a response and without a failure.
abbrev pub hangs : ℕ → AsyncMcpStdioClient → Bool
hangs i c = unsettled? (future_of i c.futures)

future_of-append :
    (i : ℕ) (futures more : List (ℕ × Future))
    → unsettled? (future_of i futures) ≡ true
    → unsettled? (future_of i (futures ++ more)) ≡ true
future_of-append i [] more h = absurd (ground (arith, h))
future_of-append i ((j, f) ∷ futures) more h = ground (arith, h, future_of-append i futures more)

future_of-cancel :
    (i k : ℕ) (futures : List (ℕ × Future))
    → unsettled? (future_of i futures) ≡ true
    → unsettled? (future_of i (set_futures (nat_eq k) Future.cancelled futures)) ≡ true
unfolding set_futures
future_of-cancel i k [] h = absurd (ground (arith, h))
future_of-cancel i k ((j, Future.waiting) ∷ futures) h =
    ground (arith, h, future_of-cancel i k futures)
future_of-cancel i k ((j, Future.resolved r) ∷ futures) h =
    ground (arith, h, future_of-cancel i k futures)
future_of-cancel i k ((j, Future.failed e) ∷ futures) h =
    ground (arith, h, future_of-cancel i k futures)
future_of-cancel i k ((j, Future.cancelled) ∷ futures) h =
    ground (arith, h, future_of-cancel i k futures)

-- The reader no longer reads, and the caller waits.
abbrev IsLost : ℕ → AsyncMcpStdioClient → Type 0
IsLost i c = (c.reader ≢ Reader.reading) × (hangs i c ≡ true)

Step-IsLost : (i : ℕ) (c c' : AsyncMcpStdioClient) → IsLost i c → Step c c' → IsLost i c'
unfolding send_request give_up
Step-IsLost i _ _ (off, h) (Step.sent method params c) =
    (off, future_of-append i c.futures ((suc c.request_id, Future.waiting) ∷ []) h)
Step-IsLost i _ _ (off, h) (Step.line_read r c on) = absurd (off on)
Step-IsLost i _ _ (off, h) (Step.output_ended c on) = absurd (off on)
Step-IsLost i _ _ (off, h) (Step.reader_failed e c on) = absurd (off on)
Step-IsLost i _ _ (off, h) (Step.given_up k c) = (off, future_of-cancel i k c.futures h)
Step-IsLost i _ _ (off, h) (Step.reader_stopped c on) = absurd (off on)

Steps-IsLost : (i : ℕ) (c c' : AsyncMcpStdioClient) → IsLost i c → Steps c c' → IsLost i c'
Steps-IsLost i c c' h (Steps.start _) = h
Steps-IsLost i c c' h (Steps.more _ mid _ before last) =
    Step-IsLost i mid c' (Steps-IsLost i c mid h before) last

-- A request without a response or a failure when the server's output ends never gets one, whatever
-- steps follow.
pub eof_hangs :
    (i : ℕ) (c c' : AsyncMcpStdioClient)
    → hangs i c ≡ true
    → Steps (on_eof c) c'
    → hangs i c' ≡ true
eof_hangs i c c' h steps = (Steps-IsLost i (on_eof c) c' ((λ e. ground (arith, e)), h) steps).1
