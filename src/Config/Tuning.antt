-- ===== src/Config/Tuning.antt =====
-- `applyHY2Tuning` of cmd/mini-sb-agent/main.go.
use mini_sb_agent.Base.{
  ℕ, Bool, ◌||◌, Option, none, some, List, map, if◌then◌else◌, ◌==◌, nat_eq, list_eq, pair_eq,
  is_pos, Text, codes,
}

pub record Hy2Tuning : Type 0 where
  pub enabled : Bool
  pub up_mbps : ℕ
  pub down_mbps : ℕ
  pub ignore_client_bandwidth : Bool
  pub brutal_debug : Bool

-- The fields of sing-box's `Hysteria2InboundOptions` that are set.
pub record Hysteria2Options : Type 0 where
  pub up_rate : ℕ
  pub down_rate : ℕ
  pub ignores_client : Bool
  pub debugs : Bool

-- An inbound of the options; `hysteria2` is `none` if they are of another type, or nil.
pub record InboundOptions : Type 0 where
  pub inbound_type : Text
  pub hysteria2 : Option Hysteria2Options

unfoldable pub tuned : Hy2Tuning → Hysteria2Options → Hysteria2Options
tuned t o = record {
  up_rate = if is_pos t.up_mbps then t.up_mbps else o.up_rate;
  down_rate = if is_pos t.down_mbps then t.down_mbps else o.down_rate;
  ignores_client = t.ignore_client_bandwidth || o.ignores_client;
  debugs = t.brutal_debug || o.debugs;
}

abbrev pub tuned_or_none : Hy2Tuning → Option Hysteria2Options → Option Hysteria2Options
tuned_or_none t none = none
tuned_or_none t (some o) = some (tuned t o)

abbrev pub tune_inbound : Hy2Tuning → InboundOptions → InboundOptions
tune_inbound t i =
    if i.inbound_type == codes "hysteria2"
    then record i { hysteria2 = tuned_or_none t i.hysteria2 }
    else i

-- `applyHY2Tuning`
unfoldable pub apply_hy2_tuning : Hy2Tuning → List InboundOptions → List InboundOptions
unfolding tuned
apply_hy2_tuning t inbounds = if t.enabled then map (tune_inbound t) inbounds else inbounds
