-- ===== src/App/Replay/Requests.antt =====
-- What the replay of a request shows of the messages that the request has stored.
use ocm_agent_v.Value.{Value}
