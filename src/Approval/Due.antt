-- ===== src/Approval/Due.antt =====
-- An approval that is due gives nothing away.
use my_ai_agent_fullstack_tr.Base.{list_eq, nat_eq, option_eq, pair_eq}
use my_ai_agent_fullstack_tr.Domain.Models.{Approval}
