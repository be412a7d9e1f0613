-- ===== src/Costs/Model.antt =====
-- The cost ledger's data: src/intake/costs/models.py, and the state of CostCalculator
-- (calculator.py). An amount of money, a quantity and a price are integers, counted in a unit that
-- is small enough for all of them: `Decimal` is exact on numbers of at most 28 digits. The value of
-- an assumption is its JSON text. Timestamps are numbers on one UTC clock.
use mathlib.Core.Int.{ℤ}
use intake.Prelude.{ℕ, String, Bool, Option, List}
use intake.Prelude.Dict.{Dict}

abbrev pub Decimal : Type 0
Decimal = ℤ

pub data CostFrequency : Type 0 where
  one_time hourly daily weekly monthly yearly usage_based on_demand : CostFrequency

pub data VendorProviderKind : Type 0 where
  railway render fly cloudflare_r2 google_drive s3 s3_compatible : VendorProviderKind
  tailscale cloudflare_tunnel self_hosted custom : VendorProviderKind

abbrev pub kind_value : VendorProviderKind → String
kind_value VendorProviderKind.railway = "railway"
kind_value VendorProviderKind.render = "render"
kind_value VendorProviderKind.fly = "fly"
kind_value VendorProviderKind.cloudflare_r2 = "cloudflare_r2"
kind_value VendorProviderKind.google_drive = "google_drive"
kind_value VendorProviderKind.s3 = "s3"
kind_value VendorProviderKind.s3_compatible = "s3_compatible"
kind_value VendorProviderKind.tailscale = "tailscale"
kind_value VendorProviderKind.cloudflare_tunnel = "cloudflare_tunnel"
kind_value VendorProviderKind.self_hosted = "self_hosted"
kind_value VendorProviderKind.custom = "custom"

pub data CostCurrency : Type 0 where
  usd eur gbp cad aud : CostCurrency

pub data CostConfidence : Type 0 where
  verified confirmed estimated projected unknown : CostConfidence

pub data CostRiskLevel : Type 0 where
  low medium high uncertain unknown : CostRiskLevel

pub data CostFactSourceKind : Type 0 where
  vendor_website vendor_api vendor_docs manual_entry estimate third_party : CostFactSourceKind

pub record CostAssumption : Type 0 where
  pub assumption_id : String
  pub scenario_id : Option String
  pub category : String
  pub description : String
  pub data_type : String
  pub value : String
  pub unit : Option String
  pub confidence : CostConfidence
  pub risk_level : CostRiskLevel
  pub notes : String
  pub source : Option String
  pub source_url : Option String
  pub is_active : Bool
  pub created_at : ℕ

pub record CostSourceSnapshot : Type 0 where
  pub snapshot_id : String
  pub source_url : String
  pub source_title : Option String
  pub captured_at : ℕ
  pub source_kind : CostFactSourceKind
  pub vendor_kind : Option VendorProviderKind
  pub content_hash : Option String
  pub content_length : Option ℕ
  pub notes : String
  pub captured_by : Option String

pub record CostEstimateLineItem : Type 0 where
  pub line_item_id : String
  pub scenario_id : String
  pub provider_kind : VendorProviderKind
  pub category : String
  pub description : String
  pub quantity : Decimal
  pub unit_price_usd : Decimal
  pub total_usd : Decimal
  pub currency : CostCurrency
  pub frequency : CostFrequency
  pub formula : Option String
  pub assumption_ids : List String
  pub fact_ids : List String
  pub snapshot_ids : List String
  pub confidence : CostConfidence
  pub risk_level : CostRiskLevel
  pub notes : String
  pub sort_order : ℤ

pub record CostEstimateScenario : Type 0 where
  pub scenario_id : String
  pub display_name : String
  pub description : String
  pub total_monthly_usd : Option Decimal
  pub total_one_time_usd : Option Decimal
  pub total_usd : Option Decimal
  pub currency : CostCurrency
  pub line_items : List CostEstimateLineItem
  pub assumptions : List CostAssumption
  pub snapshots : List CostSourceSnapshot
  pub tags : List String
  pub created_at : ℕ
  pub updated_at : Option ℕ
  pub created_by : Option String
  pub overall_confidence : CostConfidence
  pub overall_risk_level : CostRiskLevel
  pub risk_notes : String

pub record VendorCostReceipt : Type 0 where
  pub receipt_id : String
  pub scenario_id : String
  pub display_name : String
  pub description : String
  pub total_monthly_usd : Option Decimal
  pub total_one_time_usd : Option Decimal
  pub total_usd : Option Decimal
  pub currency : CostCurrency
  pub provider_costs_total_usd : Option Decimal
  pub intake_costs_total_usd : Option Decimal
  pub provider_costs_breakdown : Dict Decimal
  pub valid_from : ℕ
  pub valid_until : Option ℕ
  pub source_snapshots : List CostSourceSnapshot
  pub pricing_updated_at : Option ℕ
  pub disclaimer : String
  pub created_at : ℕ
  pub created_by : Option String
  pub client_id : Option String
  pub quote_id : Option String
  pub version : ℕ
  pub previous_receipt_id : Option String

-- CostCalculator, without its registries of providers and pricing facts.
pub record Calculator : Type 0 where
  pub scenarios : Dict CostEstimateScenario
  pub receipts : Dict VendorCostReceipt
  pub snapshots : Dict CostSourceSnapshot
