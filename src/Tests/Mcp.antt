-- ===== src/Tests/Mcp.antt =====
-- Two requests of a client: one is answered, then the server's output ends.
use auditable_scientific_age.Prelude.{true, none, some, ◌≡◌, refl}
use auditable_scientific_age.Mcp.Client.{
  AsyncMcpStdioClient, Response, started, send_request, on_line, on_response_id, set_futures,
  on_eof, Step, Steps,
}
use auditable_scientific_age.Mcp.Client.Correlation.{Steps-IsCorrelated, IsCorrelated}
use auditable_scientific_age.Mcp.Client.Hang.{eof_hangs, hangs}

abbrev response : Response
response = record {
  id = some 1;
  error = none;
  result = some (record { tools = none; shown = "{'content': []}" });
}

abbrev one_sent : AsyncMcpStdioClient
one_sent = (send_request "tools/list" "{}" started).1

abbrev two_sent : AsyncMcpStdioClient
two_sent = (send_request "tools/call" "{}" one_sent).1

abbrev one_answered : AsyncMcpStdioClient
one_answered = on_line response two_sent

abbrev to_answer : Steps started one_answered
unfolding send_request
to_answer =
    Steps.more started two_sent one_answered
      (Steps.more started one_sent two_sent
        (Steps.more started started one_sent (Steps.start started)
          (Step.sent "tools/list" "{}" started))
        (Step.sent "tools/call" "{}" one_sent))
      (Step.line_read response two_sent refl)

Steps-IsCorrelated_example : IsCorrelated one_answered
Steps-IsCorrelated_example = Steps-IsCorrelated one_answered to_answer

eof_hangs_example : hangs 2 (send_request "tools/list" "{}" (on_eof one_answered)).1 ≡ true
unfolding send_request on_line on_response_id set_futures
eof_hangs_example =
    eof_hangs 2 one_answered (send_request "tools/list" "{}" (on_eof one_answered)).1 refl (
      Steps.more (on_eof one_answered) (on_eof one_answered)
        (send_request "tools/list" "{}" (on_eof one_answered)).1 (Steps.start (on_eof one_answered))
        (Step.sent "tools/list" "{}" (on_eof one_answered)))
