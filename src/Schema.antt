-- ===== src/Schema.antt =====
-- backend/pkg/models/content.go: the JSON schema of a content record, under which Textile is asked
-- to keep the records, and what its keywords say of an object (JSON schema, draft 7).
pub mod Fields
use hackfs_mdc.Base.{
  String, ◌<>◌, Bool, true, false, ◌&&◌, Option, none, some, List, [], ◌∷◌, ◌==◌, if◌then◌else◌,
}
use hackfs_mdc.Base.Int.{ℤ, pos}

-- A JSON value: a text, an integer, or one of another type.
pub data Json : Type 0 where
  text : String → Json
  integer : ℤ → Json
  other : Json

abbrev pub Object : Type 0
Object = List (String × Json)

pub record Property : Type 0 where
  pub name : String
  pub id : String
  pub type : String
  pub title : String
  pub description : String
  pub default : Json
  pub examples : List Json

pub record Schema : Type 0 where
  pub schema : String
  pub id : String
  pub type : String
  pub title : String
  pub description : String
  pub default : Object
  pub examples : List Object
  pub required : List String
  pub additional_properties : Bool
  pub properties : List Property

-- The part that the properties share.
abbrev property : String → String → Json → Json → Property
property name type default example = record {
  name = name;
  id = "#/properties/" <> name;
  type = type;
  title = "The " <> name <> " schema";
  description = "An explanation about the purpose of this instance.";
  default = default;
  examples = example ∷ [];
}

abbrev string_property : String → String → Property
string_property name example = property name "string" (text "") (text example)

abbrev integer_property : String → ℤ → Property
integer_property name example = property name "integer" (integer (pos 0)) (integer example)

abbrev example_thread : String
example_thread = "bafktw6svx7iwwtrzcnyzdmuc3yfzbvmdgg6td7cezp7cp7bye4hmzkq"

abbrev example_owner : String
example_owner = "bafk4v4bqp7x3ytfjvh7b73vwq5s62gyenlh6jr3d7g52klfjg2h3yvy"

abbrev example_bucket : String
example_bucket = "bafzbeiay356ciqdgtkpkzc66b2pswn6arohbzrpztewj3q3bne77macne4"

abbrev example_url : String
example_url = "https://hub.textile.io/ipns/" <> example_bucket

abbrev pub example_content : Object
example_content =
    ("_id", text example_thread)
    ∷ ("ownerId", text example_owner)
    ∷ ("fileName", text "test01.png")
    ∷ ("fileType", text "image")
    ∷ ("fileSize", integer (pos 5000))
    ∷ ("description", text "this is a test")
    ∷ ("threadKey", text example_thread)
    ∷ ("bucketKey", text example_bucket)
    ∷ ("encryptedUrl", text example_url)
    ∷ ("previewUrl", text example_url)
    ∷ ("receivedAt", integer (pos 1595137568000))
    ∷ ("updatedAt", integer (pos 1595137568200))
    ∷ []

abbrev content_properties : List Property
content_properties =
    string_property "_id" example_thread
    ∷ string_property "ownerId" example_owner
    ∷ string_property "fileName" "test01.png"
    ∷ string_property "fileType" "image"
    ∷ integer_property "fileSize" (pos 5000)
    ∷ string_property "description" "this is a test"
    ∷ string_property "threadKey" example_thread
    ∷ string_property "bucketKey" example_bucket
    ∷ string_property "encryptedUrl" example_url
    ∷ string_property "previewUrl" example_url
    ∷ integer_property "receivedAt" (pos 1595137568000)
    ∷ integer_property "updatedAt" (pos 1595137568200)
    ∷ []

-- ContentDataSchema
abbrev pub content_data_schema : Schema
content_data_schema = record {
  schema = "http://json-schema.org/draft-07/schema";
  id = "http://example.com/example.json";
  type = "object";
  title = "ContentData";
  description = "The ContentData schema comprises the entire JSON document.";
  default = [];
  examples = example_content ∷ [];
  required =
      "_id" ∷ "ownerId" ∷ "fileName" ∷ "fileType" ∷ "fileSize" ∷ "description" ∷ "threadKey"
      ∷ "bucketKey" ∷ "encryptedUrl" ∷ "previewUrl" ∷ "receivedAt" ∷ "updatedAt" ∷ [];
  additional_properties = true;
  properties = content_properties;
}

abbrev pub value_at : String → Object → Option Json
value_at name [] = none
value_at name ((n, j) ∷ o) = if n == name then some j else value_at name o

-- The keyword `type`, for the two types that the schema uses.
abbrev pub has_type : String → Json → Bool
has_type type (text t) = type == "string"
has_type type (integer i) = type == "integer"
has_type type other = false

abbrev is_there : Option Json → Bool
is_there none = false
is_there (some j) = true

-- The keyword `required`.
unfoldable pub all_required : List String → Object → Bool
all_required [] o = true
all_required (n ∷ ns) o = is_there (value_at n o) && all_required ns o

abbrev is_typed : String → Option Json → Bool
is_typed type none = true
is_typed type (some j) = has_type type j

-- The keyword `properties`: a property that is there has its type.
unfoldable pub all_typed : List Property → Object → Bool
all_typed [] o = true
all_typed (p ∷ ps) o = is_typed p.type (value_at p.name o) && all_typed ps o

unfoldable pub accepts : Schema → Object → Bool
accepts s o = all_required s.required o && all_typed s.properties o
