-- ===== src/Schema/Fields.antt =====
-- What the schema asks of a record.
use hackfs_mdc.Base.{◌≡◌, String, true, some, List, [], ◌∷◌}
use hackfs_mdc.Schema.{Json, Object, Property, value_at, has_type}

-- A value of the type stands under the name.
abbrev pub HasField : Object → String → String → Type 0
HasField o name type = (j : Json) × (value_at name o ≡ some j) × (has_type type j ≡ true)

abbrev pub HasFields : Object → List (String × String) → Type 0
HasFields o [] = Unit
HasFields o ((name, type) ∷ fields) = HasField o name type × HasFields o fields

-- The fields of a content record, with their JSON types.
abbrev pub content_fields : List (String × String)
content_fields =
    ("_id", "string")
    ∷ ("ownerId", "string")
    ∷ ("fileName", "string")
    ∷ ("fileType", "string")
    ∷ ("fileSize", "integer")
    ∷ ("description", "string")
    ∷ ("threadKey", "string")
    ∷ ("bucketKey", "string")
    ∷ ("encryptedUrl", "string")
    ∷ ("previewUrl", "string")
    ∷ ("receivedAt", "integer")
    ∷ ("updatedAt", "integer")
    ∷ []

abbrev names : List Property → List String
names [] = []
names (p ∷ ps) = p.name ∷ names ps

abbrev fields : List Property → List (String × String)
fields [] = []
fields (p ∷ ps) = (p.name, p.type) ∷ fields ps
