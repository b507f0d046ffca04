-- ===== src/Manifest/Validate.antt =====
-- internal/manifest/manifest.go, `Validate`.
use Prim.Native.String.{len, ◌++◌ as concat}
use mrkt.Prelude.{
  ℕ, ◌+◌, ◌*◌, ◌^◌, String, ◌==◌, Bool, true, false, not, ◌&&◌, ◌||◌, Option, none, some, List, [],
  ◌∷◌, map, length, contains, find, leb, ltb, if◌then◌else◌,
}
use mrkt.Manifest.Types.{
  ℤ, pos, negsuc, MailingList, File, Content, Sequence, Broadcast, Manifest, Runtime,
}
use mrkt.Manifest.Check.{Check, ◌>>◌, refuse_if, for_each, for_each_new}
use mrkt.Manifest.Patterns.{identifier, locale_pattern, hash_pattern, safe_path}
use mrkt.Manifest.Sequences.{translations, is_some, validate_sequence}

-- `MaxFileSize` and `MaxReleaseSize`.
abbrev pub max_file_size : ℕ
max_file_size = 8 * 2 ^ 20

abbrev pub max_release_size : ℕ
max_release_size = 32 * 2 ^ 20

abbrev refuse_name : String → String → String → Check
refuse_name id f m = refuse_if (not (id == "") && not (identifier id)) f m

-- The loop over the locales: `m.Project.Locales[:i]` holds those before.
abbrev validate_locales : List String → Check
validate_locales =
    for_each_new (λ l. l)
      (λ before l.
        refuse_if (not (locale_pattern l) || contains before l) "project.locales"
          "invalid or duplicate locale")
      []

abbrev out_of_bounds : ℤ → Bool
out_of_bounds (pos n) = ltb max_file_size n
out_of_bounds (negsuc _) = true

abbrev is_image : Option String → Bool
is_image none = false
is_image (some t) = contains ("image/png" ∷ "image/jpeg" ∷ "image/gif" ∷ "image/webp" ∷ []) t

pub validate_file : Runtime → List String → File → Check
validate_file rt seen f = do
  refuse_if (not (safe_path rt f.path)) "files.path" "unsafe path"
  refuse_if (contains seen f.path) "files.path" "duplicate"
  refuse_if (out_of_bounds f.size) "files.size" "out of bounds"
  refuse_if (not (f.sha256 == "") && not (hash_pattern f.sha256)) "files.sha256"
      "expected lowercase SHA256"
  refuse_if (not (is_some (rt.parse_media_type f.content_type))) "files.content_type"
      "valid MIME type required"
  refuse_if (f.is_public && not (is_image (rt.parse_media_type f.content_type))) "files.public"
      "public assets must be PNG, JPEG, GIF or WebP"

abbrev size_of : ℤ → ℕ
size_of (pos n) = n
size_of (negsuc _) = 0

-- `total`. The loop has refused a negative size before it is added, and at most 256 sizes of at
-- most 8 MiB do not overflow an int64.
abbrev total_size : List File → ℕ
total_size [] = 0
total_size (f ∷ fs) = size_of f.size + total_size fs

-- `files[path]`: paths are unique once the files are accepted.
abbrev pub file_at : List File → String → Option File
file_at fs p = find (λ f. f.path == p) fs

abbrev is_attachable : Option File → Bool
is_attachable none = false
is_attachable (some f) = not f.is_public

pub validate_content : Manifest → String → String × Content → Check
validate_content m id (loc, c) = do
  refuse_if (not (contains m.project.locales loc)) (concat "messages." id) "unsupported locale"
  for_each
      (λ p.
        refuse_if (not (is_some (file_at m.files p))) (concat "messages." id)
          (concat "source missing from inventory: " p))
      (c.subject ∷ c.html ∷ c.plain ∷ [])
  for_each
      (λ p.
        refuse_if (not (is_attachable (file_at m.files p))) (concat "messages." id)
          "attachment missing or public")
      c.attachments
  refuse_if (ltb 10 (length c.attachments)) (concat "messages." id) "at most ten attachments"

-- `translations[loc]`.
abbrev pub content_in : List (String × Content) → String → Option Content
content_in [] loc = none
content_in ((k, c) ∷ t) loc = if k == loc then some c else content_in t loc

pub validate_message : Manifest → String × List (String × Content) → Check
unfolding validate_content
validate_message m (id, t) = do
  refuse_if (not (identifier id)) "messages" "invalid ID"
  refuse_if (not (is_some (content_in t m.project.default_locale))) (concat "messages." id)
      "default locale translation required"
  for_each (validate_content m id) t

pub validate_list : List String → MailingList → Check
validate_list seen l =
    refuse_if
      (not (identifier l.id)
        || contains seen l.id
        || l.name == ""
        || l.purpose == ""
        || l.policy_version == "")
      "lists" "unique ID, name, purpose and policy_version required"

abbrev pub list_ids : List MailingList → List String
list_ids = map (λ l. l.id)

pub validate_broadcast : Manifest → List String → Broadcast → Check
validate_broadcast m seen b = do
  refuse_if
      (not (identifier b.id)
        || contains seen b.id
        || not (identifier b.event)
        || not (contains (list_ids m.lists) b.list))
      "broadcasts" "unique ID, event and existing list required"
  refuse_if (not (is_some (translations m.messages b.message))) "broadcasts.message"
      "unknown message"

abbrev is_version : ℤ → Bool
is_version (pos n) = leb n 1 && leb 1 n
is_version (negsuc _) = false

-- What `Validate` tests before it comes to the lists.
pub validate_header : Runtime → Manifest → Check
unfolding validate_file
validate_header rt m = do
  for_each (λ id. refuse_name id "project" "invalid provisioned registry reference")
      (m.project.transport ∷ m.project.domain ∷ [])
  for_each (λ (s : Sequence). refuse_name s.stream "sequences.stream" "invalid stream") m.sequences
  for_each (λ (b : Broadcast). refuse_name b.stream "broadcasts.stream" "invalid stream")
      m.broadcasts
  refuse_if (not (is_version m.version)) "version" "must be 1"
  refuse_if (m.project.name == "" || ltb 120 (len m.project.name)) "project.name"
      "required, maximum 120 characters"
  refuse_if
      (leb (length m.project.locales) 0
        || ltb 30 (length m.project.locales)
        || not (contains m.project.locales m.project.default_locale))
      "project.locales" "must contain default locale and at most 30 locales"
  validate_locales m.project.locales
  refuse_if
      (ltb 256 (length m.files)
        || ltb 100 (length m.messages)
        || ltb 100 (length m.sequences)
        || ltb 100 (length m.broadcasts)
        || ltb 100 (length m.lists))
      "manifest" "resource count exceeds limit"
  for_each_new (λ (f : File). f.path) (validate_file rt) [] m.files
  refuse_if (ltb max_release_size (total_size m.files)) "files" "release exceeds 32 MiB"

unfoldable pub validate : Runtime → Manifest → Check
unfolding validate_header validate_list validate_message validate_broadcast
validate rt m = do
  validate_header rt m
  for_each_new (λ (l : MailingList). l.id) validate_list [] m.lists
  for_each (validate_message m) m.messages
  for_each_new (λ (s : Sequence). s.id) (validate_sequence rt m.messages (list_ids m.lists)) []
      m.sequences
  for_each_new (λ (b : Broadcast). b.id) (validate_broadcast m) [] m.broadcasts
