-- ===== src/Gateway/Stream/Delivery.antt =====
-- What a client of `stream` in gateway.py receives: the bytes of one stream, and no other.
use my_ai_agent_fullstack_tr.Base.{list_eq, nat_eq, option_eq, pair_eq}
use my_ai_agent_fullstack_tr.Gateway.{route_target_eq}
use my_ai_agent_fullstack_tr.Gateway.Stream.Ending.{Settled}
