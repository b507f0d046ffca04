-- ===== src/Manifest/Types.antt =====
-- internal/manifest/manifest.go, lines 31 to 105: the data of a manifest, the error of a refused
-- one, and what the package takes from Go's standard library.
use mrkt.Prelude.{ℕ, String, Bool, List, Option}

-- Go's `int` and `int64`: `negsuc n` is -(n + 1).
pub data ℤ : Type 0 where
  pos : ℕ → ℤ
  negsuc : ℕ → ℤ

-- Go's `any`, with the types that YAML and JSON put into it. A `float64` is its bit pattern.
mutual
  pub data Value : Type 0 where
    null : Value
    text : String → Value
    bool : Bool → Value
    int : ℤ → Value
    int64 : ℤ → Value
    float : ℕ → Value
    number : String → Value
    array : Items → Value
    object : Fields → Value

  pub data Items : Type 0 where
    nil : Items
    cons : Value → Items → Items

  pub data Fields : Type 0 where
    end : Fields
    entry : String → Value → Fields → Fields

pub record Condition : Type 0 where
  pub field : String
  pub op : String
  pub value : Value

pub record Project : Type 0 where
  pub transport : String
  pub domain : String
  pub name : String
  pub default_locale : String
  pub locales : List String

-- `List` in the source.
pub record MailingList : Type 0 where
  pub id : String
  pub name : String
  pub purpose : String
  pub policy_version : String

pub record File : Type 0 where
  pub path : String
  pub sha256 : String
  pub content_type : String
  pub size : ℤ
  pub is_public : Bool

pub record Content : Type 0 where
  pub subject : String
  pub html : String
  pub plain : String
  pub attachments : List String

pub record Step : Type 0 where
  pub id : String
  pub type : String
  pub message : String
  pub delay : String
  pub next : String
  pub otherwise : String
  pub condition : Option Condition

pub record Sequence : Type 0 where
  pub stream : String
  pub id : String
  pub list : String
  pub event : String
  pub entry : String
  pub reentry : String
  pub steps : List Step
  pub exit : Option Condition

pub record Broadcast : Type 0 where
  pub stream : String
  pub id : String
  pub event : String
  pub list : String
  pub message : String

-- A Go map is the list of its entries in the order in which `range` meets them.
pub record Manifest : Type 0 where
  pub version : ℤ
  pub project : Project
  pub lists : List MailingList
  pub files : List File
  pub messages : List (String × List (String × Content))
  pub sequences : List Sequence
  pub broadcasts : List Broadcast

pub record ValidationError : Type 0 where
  pub field : String
  pub code : String
  pub message : String

-- `nil` is `none`.
abbrev pub invalid : String → String → ValidationError
invalid field msg = record { field = field; code = "invalid_manifest"; message = msg }

-- What the package calls in Go's standard library. Of a float64 only comparisons are used.
pub record Runtime : Type 0 where
  pub float_of_int : ℤ → ℕ
  pub float_of_number : String → Option ℕ
  pub float_eq : ℕ → ℕ → Bool
  pub float_lt : ℕ → ℕ → Bool
  pub float_le : ℕ → ℕ → Bool
  -- `reflect.DeepEqual`
  pub deep_equal : Value → Value → Bool
  -- `time.ParseDuration`, in nanoseconds
  pub parse_duration : String → Option ℤ
  -- the media type that `mime.ParseMediaType` finds
  pub parse_media_type : String → Option String
  -- `fs.ValidPath`, `path.Clean`
  pub valid_path : String → Bool
  pub clean_path : String → String
  -- the order in which `range` meets the keys of a map
  pub range_keys : List String → List String
