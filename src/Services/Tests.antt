-- ===== src/Services/Tests.antt =====
-- The services of a call at concrete inputs.
use sales_girl_voice_agent.Common.{ℕ, [], Text, codes, Json}
use sales_girl_voice_agent.Services.Billing.{Settings}
use sales_girl_voice_agent.Services.Capacity
use sales_girl_voice_agent.Services.Bridge.{Config}

abbrev settings : Settings
settings = record {
  base_url = codes "https://billing.example";
  service_token = codes "t";
  business_id = [];
}

abbrev shown : Json → Text
shown j = []

abbrev lease_settings : Capacity.Settings
lease_settings = record {
  base_url = codes "https://calls.example";
  token = codes "t";
  momo_business = codes "momo";
}

abbrev quote : Text → Text
quote s = s

abbrev status_message : ℕ → Text
status_message code = codes "failed"

abbrev config : Config
config = record {
  outbound_trunk_id = codes "t-1";
  transfer_target_number = codes "+2347000000000";
  preserve_caller_id = codes "false";
  transfer_from_number = codes "+2347000000001";
}
