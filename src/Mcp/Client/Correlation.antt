-- ===== src/Mcp/Client/Correlation.antt =====
-- Which response a caller gets.
use auditable_scientific_age.Prelude.{
  all-append, ℕ, suc, ◌≤◌, String, Bool, true, false, not, ◌&&◌, Option, none, some, List, [], ◌∷◌,
  ◌++◌, any-append, all, keep_if, if◌then◌else◌, nat_eq, leb, ◌≡◌, refl, arith, inl, inr,
  Bool-cases, ◌∙◌,
}
use auditable_scientific_age.Mcp.Client.{
  AsyncMcpStdioClient, Response, Future, started, send_request, is_pending, set_if_waiting,
  set_futures, resolve, on_response_id, on_line, on_error, give_up, Step, Steps,
}

abbrev has_id : ℕ → Option ℕ → Bool
has_id i none = false
has_id i (some j) = nat_eq i j

-- A future of request `i` is of a request made; while it waits, the request is pending; and a response
-- that it holds has its id.
abbrev pub is_correlated : ℕ → List ℕ → ℕ × Future → Bool
is_correlated request_id pending (i, Future.waiting) = leb i request_id && is_pending i pending
is_correlated request_id pending (i, Future.resolved r) = leb i request_id && has_id i r.id
is_correlated request_id pending (i, Future.failed e) = leb i request_id
is_correlated request_id pending (i, Future.cancelled) = leb i request_id

abbrev pub IsCorrelated : AsyncMcpStdioClient → Type 0
IsCorrelated c =
    (all (is_correlated c.request_id c.pending_requests) c.futures ≡ true)
    × (all (λ i. leb i c.request_id) c.pending_requests ≡ true)

-- Weaker demands are met by the same futures.
all-weaken :
    (n n' : ℕ) (ids ids' : List ℕ) (futures : List (ℕ × Future))
    → n ≤ n'
    → ((i : ℕ) → is_pending i ids ≡ true → is_pending i ids' ≡ true)
    → all (is_correlated n ids) futures ≡ true
    → all (is_correlated n' ids') futures ≡ true
all-weaken n n' ids ids' [] le grow h = refl
all-weaken n n' ids ids' ((i, Future.waiting) ∷ futures) le grow h =
    ground (arith, h, le, grow i, all-weaken n n' ids ids' futures le grow)
all-weaken n n' ids ids' ((i, Future.resolved r) ∷ futures) le grow h =
    ground (arith, h, le, all-weaken n n' ids ids' futures le grow)
all-weaken n n' ids ids' ((i, Future.failed e) ∷ futures) le grow h =
    ground (arith, h, le, all-weaken n n' ids ids' futures le grow)
all-weaken n n' ids ids' ((i, Future.cancelled) ∷ futures) le grow h =
    ground (arith, h, le, all-weaken n n' ids ids' futures le grow)

ids-weaken :
    (n n' : ℕ) (ids : List ℕ)
    → n ≤ n'
    → all (λ i. leb i n) ids ≡ true
    → all (λ i. leb i n') ids ≡ true
ids-weaken n n' [] le h = refl
ids-weaken n n' (i ∷ ids) le h = ground (arith, h, le, ids-weaken n n' ids le)

-- The pending requests but one.
pending-keep_if :
    (i j : ℕ) (ids : List ℕ)
    → is_pending j (keep_if (λ k. not (nat_eq i k)) ids) ≡ (not (nat_eq i j) && is_pending j ids)
pending-keep_if i j [] = ground arith
pending-keep_if i j (k ∷ ids) = ground (arith, pending-keep_if i j ids)

ids-keep_if :
    (n i : ℕ) (ids : List ℕ)
    → all (λ k. leb k n) ids ≡ true
    → all (λ k. leb k n) (keep_if (λ k. not (nat_eq i k)) ids) ≡ true
ids-keep_if n i [] h = refl
ids-keep_if n i (k ∷ ids) h = ground (arith, h, ids-keep_if n i ids)

-- Futures that a test selects are set to a value, where the requests that it passes over stay pending.
module _ (n : ℕ) (ids ids' : List ℕ) (test : ℕ → Bool) (new : Future)
    (fits : (j : ℕ) → leb j n ≡ true → test j ≡ true → is_correlated n ids' (j, new) ≡ true)
    (stays : (j : ℕ) → test j ≡ false → is_pending j ids ≡ true → is_pending j ids' ≡ true) where
  set-is_correlated :
      (j : ℕ) (f : Future)
      → is_correlated n ids (j, f) ≡ true
      → is_correlated n ids' (j, if test j then set_if_waiting new f else f) ≡ true
  set-is_correlated j Future.waiting h = elim (Bool-cases (test j)) [
    | inl hit ↦ rw hit (fits j (ground (arith, h)) hit)
    | inr other ↦ rw other (ground (arith, h, stays j other))
  ]
  set-is_correlated j (Future.resolved r) h = ground (arith, h)
  set-is_correlated j (Future.failed e) h = ground (arith, h)
  set-is_correlated j Future.cancelled h = ground (arith, h)

  all-set_futures :
      (futures : List (ℕ × Future))
      → all (is_correlated n ids) futures ≡ true
      → all (is_correlated n ids') (set_futures test new futures) ≡ true
  unfolding set_futures
  all-set_futures [] h = refl
  all-set_futures ((j, f) ∷ futures) h = ground (
    arith,
    set-is_correlated j f (ground (arith, h)),
    all-set_futures futures (ground (arith, h)),
  )

resolve-IsCorrelated :
    (i : ℕ) (r : Response) (c : AsyncMcpStdioClient)
    → r.id ≡ some i
    → IsCorrelated c
    → IsCorrelated (resolve i r c)
resolve-IsCorrelated i r c e (all_c, ids) =
    let left = keep_if (λ j. not (nat_eq i j)) c.pending_requests in
    (
      all-set_futures c.request_id c.pending_requests left (nat_eq i) (Future.resolved r)
          (λ j le same. ground (arith, le, same, e))
          (λ j other there. ground (arith, other, there, pending-keep_if i j c.pending_requests))
          c.futures all_c,
      ids-keep_if c.request_id i c.pending_requests ids,
    )

on_response_id-IsCorrelated :
    (o : Option ℕ) (r : Response) (c : AsyncMcpStdioClient)
    → r.id ≡ o
    → IsCorrelated c
    → IsCorrelated (on_response_id o r c)
unfolding on_response_id
on_response_id-IsCorrelated none r c e h = h
on_response_id-IsCorrelated (some i) r c e h = elim (Bool-cases (is_pending i c.pending_requests)) [
  | inl there ↦ rw there (resolve-IsCorrelated i r c e h)
  | inr out ↦ rw out h
]

send-IsCorrelated :
    (method params : String) (c : AsyncMcpStdioClient)
    → IsCorrelated c
    → IsCorrelated (send_request method params c).1
unfolding send_request
send-IsCorrelated method params c (all_c, ids) =
    let n = c.request_id in
    let now = c.pending_requests ++ suc n ∷ [] in
    (
      all-append (is_correlated (suc n) now) c.futures ((suc n, Future.waiting) ∷ [])
          ∙ ground (
            arith,
            any-append (nat_eq (suc n)) c.pending_requests (suc n ∷ []),
            all-weaken n (suc n) c.pending_requests now c.futures (omega arith)
                (λ i there.
                  any-append (nat_eq i) c.pending_requests (suc n ∷ []) ∙ ground (arith, there))
                all_c,
          ),
      all-append (λ i. leb i (suc n)) c.pending_requests (suc n ∷ [])
          ∙ ground (arith, ids-weaken n (suc n) c.pending_requests (omega arith) ids),
    )

Step-IsCorrelated : (c c' : AsyncMcpStdioClient) → IsCorrelated c → Step c c' → IsCorrelated c'
unfolding on_line on_error give_up
Step-IsCorrelated _ _ h (Step.sent method params c) = send-IsCorrelated method params c h
Step-IsCorrelated _ _ h (Step.line_read r c on) = on_response_id-IsCorrelated r.id r c refl h
Step-IsCorrelated _ _ h (Step.output_ended c on) = h
Step-IsCorrelated _ _ (all_c, ids) (Step.reader_failed e c on) =
    let pending = c.pending_requests in
    (
      all-set_futures c.request_id pending pending (λ i. is_pending i pending) (Future.failed e)
          (λ j le there. le) (λ j other there. there) c.futures all_c,
      ids,
    )
Step-IsCorrelated _ _ (all_c, ids) (Step.given_up i c) =
    let pending = c.pending_requests in
    (
      all-set_futures c.request_id pending pending (nat_eq i) Future.cancelled (λ j le there. le)
          (λ j other there. there) c.futures all_c,
      ids,
    )
Step-IsCorrelated _ _ h (Step.reader_stopped c on) = h

Steps_keep : (c c' : AsyncMcpStdioClient) → IsCorrelated c → Steps c c' → IsCorrelated c'
Steps_keep c c' h (Steps.start _) = h
Steps_keep c c' h (Steps.more _ mid _ before last) =
    Step-IsCorrelated mid c' (Steps_keep c mid h before) last

-- From the start, through any requests, lines, failures and cancellations: every future belongs to a
-- request that was made, one that waits is pending, and one that holds a response holds a response
-- with its own id; every pending request was made.
pub Steps-IsCorrelated : (c : AsyncMcpStdioClient) → Steps started c → IsCorrelated c
Steps-IsCorrelated c steps = Steps_keep started c (refl, refl) steps
