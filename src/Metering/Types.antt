-- ===== src/Metering/Types.antt =====
-- A metering event and its row (src/metering/types.ts, src/metering/meter-event-repository.ts). Strings
-- are numbers, and metadata is the number of its JSON text.
use platform_core.Base.{ℕ, Option, List, [], ◌∷◌}
use platform_core.Base.Int.{ℤ}
use mathlib.Core.Option

pub data Tier : Type 0 where
  wopr : Tier
  branded : Tier
  byok : Tier

pub record Usage : Type 0 where
  pub units : ℕ
  pub unit_type : ℕ

pub record MeterEvent : Type 0 where
  pub tenant : ℕ
  pub cost : ℤ
  pub charge : ℤ
  pub capability : ℕ
  pub provider : ℕ
  pub timestamp : ℕ
  pub session_id : Option ℕ
  pub duration : Option ℕ
  pub usage : Option Usage
  pub tier : Option Tier
  pub metadata : Option ℕ

-- `MeterEvent & { id: string }`.
pub record IdEvent : Type 0 where
  pub id : ℕ
  pub event : MeterEvent

pub record MeterEventInsert : Type 0 where
  pub id : ℕ
  pub tenant : ℕ
  pub cost : ℤ
  pub charge : ℤ
  pub capability : ℕ
  pub provider : ℕ
  pub timestamp : ℕ
  pub session_id : Option ℕ
  pub duration : Option ℕ
  pub usage_units : Option ℕ
  pub usage_unit_type : Option ℕ
  pub tier : Option Tier
  pub metadata : Option ℕ

-- The row of an event, as `flush` builds it.
abbrev pub insert_of : IdEvent → MeterEventInsert
insert_of e = record {
  id = e.id;
  tenant = e.event.tenant;
  cost = e.event.cost;
  charge = e.event.charge;
  capability = e.event.capability;
  provider = e.event.provider;
  timestamp = e.event.timestamp;
  session_id = e.event.session_id;
  duration = e.event.duration;
  usage_units = Option.map (λ (u : Usage). u.units) e.event.usage;
  usage_unit_type = Option.map (λ (u : Usage). u.unit_type) e.event.usage;
  tier = e.event.tier;
  metadata = e.event.metadata;
}

abbrev pub ids : List IdEvent → List ℕ
ids [] = []
ids (e ∷ es) = e.id ∷ ids es
