-- ===== src/Ingestion/Events.antt =====
-- services/ingestion/src/schemas/analytics_event.py: the events that pydantic has validated, and the JSON that
-- `model_dump_json` makes of them. An UUID, an URL, an address and a float are given by the texts that
-- pydantic writes for them, `none` for a float that is no number.
use realtime_analytics_pipel.Prelude.{Option, none, some, List, [], ◌∷◌, String, ℤ}

-- a value that is no object, and what the members of an event hold
pub data Value : Type 0 where
  null : Value
  number : ℤ → Value
  real : String → Value
  text : String → Value

pub data Json : Type 0 where
  value : Value → Json
  object : List (String × Value) → Json

pub record EventInfo : Type 0 where
  pub id : String
  pub type : String

pub record UserInfo : Type 0 where
  pub id : String

pub record ContextInfo : Type 0 where
  pub url : String
  pub referrer : Option String
  pub ip_address : Option String
  pub session_id : String

pub record DeviceInfo : Type 0 where
  pub user_agent : String
  pub screen_width : ℤ
  pub screen_height : ℤ

pub record EventMetrics : Type 0 where
  pub load_time : Option ℤ
  pub interaction_time : Option ℤ

-- `str | int | float`
pub data Property : Type 0 where
  str : String → Property
  int : ℤ → Property
  float : Option String → Property

pub record AnalyticsEvent : Type 0 where
  pub event : EventInfo
  pub user : UserInfo
  pub device : DeviceInfo
  pub context : ContextInfo
  pub properties : List (String × Property)
  pub metrics : EventMetrics
  pub timestamp : ℤ

abbrev pub optional : {A : Type 0} → (A → Value) → Option A → Value
optional dump none = null
optional dump (some a) = dump a

abbrev pub dump_property : Property → Value
dump_property (str s) = text s
dump_property (int n) = number n
dump_property (float f) = optional real f

abbrev pub dump_properties : List (String × Property) → List (String × Value)
dump_properties [] = []
dump_properties ((k, p) ∷ ps) = (k, dump_property p) ∷ dump_properties ps

-- the members of the object that `model_dump_json` writes
unfoldable pub model_dump_json : AnalyticsEvent → List (String × Json)
model_dump_json e =
    ("event", object (("id", text e.event.id) ∷ ("type", text e.event.type) ∷ []))
    ∷ ("user", object (("id", text e.user.id) ∷ []))
    ∷ (
      "device",
      object (
          ("user_agent", text e.device.user_agent)
          ∷ ("screen_width", number e.device.screen_width)
          ∷ ("screen_height", number e.device.screen_height)
          ∷ []),
    )
    ∷ (
      "context",
      object (
          ("url", text e.context.url)
          ∷ ("referrer", optional text e.context.referrer)
          ∷ ("ip_address", optional text e.context.ip_address)
          ∷ ("session_id", text e.context.session_id)
          ∷ []),
    )
    ∷ ("properties", object (dump_properties e.properties))
    ∷ (
      "metrics",
      object (
          ("load_time", optional number e.metrics.load_time)
          ∷ ("interaction_time", optional number e.metrics.interaction_time)
          ∷ []),
    )
    ∷ ("timestamp", value (number e.timestamp))
    ∷ []
