-- ===== src/Lib.antt =====
-- Verification of QuilrAI_MCP: gateways between AI agents and the models and tools they call.
--
-- The repository holds four services. llm-gateway-router admits requests against a token limit
-- per tenant and tries model providers in order until one answers. mcp-gateway authenticates the
-- callers of an MCP server and refuses the calls they may not make. mcp-server is such a server:
-- it looks up customers and issues refunds, each at most once. llm-gateway-guardrail redacts the
-- streams of a model. The services meet over HTTP or standard streams only, so each is modelled
-- by itself, except that mcp-gateway is also put in front of the server that stands in for the
-- one behind it, and the meter of llm-gateway-router behind the provider that stands in for a
-- model.
--
-- Files and what they model
--   Prelude: numbers, lists, dicts, exceptions (`Result`), JSON values, texts as lists of code
--     points, and the reading of a request's body up to a limit.
--   Router: llm-gateway-router/src/llm_router. Store is the table of store.py; Limit the
--     RateLimiter of ratelimit.py, with its proofs in Limit/; Tokens is tokens.py; Providers is
--     providers.py; Errors is errors.py; Route is Router.route of router.py with both failover
--     loops; Auth is auth.py; App is handle_messages of app.py, which authenticates and routes,
--     and handle_usage; Config is Config.validate of config.py; MockProvider is
--     llm-gateway-router/src/mock_model_provider/app.py.
--   Server: mcp-server/src/customer_mcp. Store is the customers and refunds of store.py; Ledger
--     is RefundLedger of idempotency.py; Refunds is create_refund, which runs the one inside the
--     other; Transport is classify_line of transport.py, and Transport/Wire the two tasks around
--     it; Schemas is the two input models of schemas.py, and Tools is handle_call_tool of
--     server.py, which validates and then looks up or refunds.
--   Gateway: mcp-gateway/src/mcp_gateway. JsonRpc is jsonrpc.py; Auth is auth.py; Policy is
--     policy.py; Proxy is the headers of proxy.py; App is app.py, App/Handler its handle_mcp_post
--     and App/Passthrough its handle_mcp_passthrough. Downstream is handle_post of
--     mcp-gateway/src/mock_downstream/app.py, with what it executes in Downstream/Executing.
--   Guardrail: llm-gateway-guardrail/src/llm_guardrail. Luhn and Patterns are patterns.py, its
--     five patterns in Patterns/Detectors; Regex is the operators that their expressions are
--     written with. Redactor is the StreamRedactor of redactor.py, with feed and flush in
--     Redactor/Feeding, and Leaves its redact_leaves; Sse is the SSEParser and the encoding of
--     sse.py; Payload is how stream.py finds and replaces the texts of a frame, Stream its
--     channels and Stream/Relay its redact_sse_stream; App is handle_messages of app.py, which
--     runs all of this.
--   Each Tests module runs its part on concrete inputs and applies its theorems to them.
--
-- How the code is read
--   Numbers are natural; a Python int that may be negative is an integer of Prelude/Int. A time
--   is a number of microseconds, and an amount of money a number of cents: the schema of
--   mcp-server admits two decimals at most, so rounding to cents changes nothing. A database
--   transaction, and a section under a lock, is one step from a state to a state; the raise of a
--   transaction rolls it back. The HTTP clients, json.loads and json.dumps, SHA-256, unicodedata
--   and str.casefold are parameters. A loop over a list is structural recursion; three loops run
--   on fuel. SSEParser.feed has the length of its buffer, as each line end takes a character off
--   it. The inner loop of StreamRedactor._redact has the length of the text and two more, as each
--   round searches further on, and the loop of _validated_end the end of the match and one more,
--   as each candidate is shorter than the last. The expressions of the patterns are values of the
--   data type Regex, with the meaning that the package regex documents for its operators: which
--   spans of a text match. How its engine searches is not read: the three searches that the
--   redactor makes are parameters, which a theorem may ask to find matches, and the redactor's
--   class of OVERLONG_RUN is a parameter too. A generator that may raise is the list of what it
--   has yielded, with the state it leaves and whether it then raised.
--
-- Not modelled
--   The console, the mock provider of the guardrail and the scripts; the health checks and the
--   reading of most settings from the environment; the texts of validation errors, the listing of
--   tools and the decoding of its streams in mcp-server; the audit log of mcp-gateway. UTF-8 is
--   not modelled: the guardrail's decoding of a chunk is a parameter, and the router's collector
--   of usage reads decoded text. Logging, sockets, process start-up and the SQLite connection are
--   input and output only. The header `Content-Length` of superscript digits, on which the services
--   raise a `ValueError`, is read as no length. A body of mcp-gateway is UTF-8, and the texts of
--   its parse errors are a parameter. A text is a list of Unicode scalar values: JSON's lone
--   surrogates are left out.
pub mod Prelude
pub mod Router
pub mod Server
pub mod Gateway
pub mod Guardrail
