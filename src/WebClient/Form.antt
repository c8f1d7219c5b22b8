-- ===== src/WebClient/Form.antt =====
-- webclient_tohttppost of 3rd/src-c/webclient.c: the forms of a multipart post.
use mathlib.Core.Option
use skynet_slg.Prelude.{
  ℕ, ◌+◌, ◌≤◌, List, [], ◌∷◌, ◌++◌, length, take, map, Bool, ltb, if◌then◌else◌, Option, none, some,
}

-- A key of the inner table, by the names that the function knows. Keys are strings or numbers: of
-- another key lua_tostring gives NULL, which strcmp does not take.
pub data Key : Type 0 where
  name contents file content_type filename unknown : Key

pub record Field : Type 0 where
  pub key : Key
  pub value : List ℕ

-- An entry of the array of curl_forms.
pub data FormOption : Type 0 where
  copy_name copy_contents file_path type_of file_name : List ℕ → FormOption
  contents_length : ℕ → FormOption
  form_end : FormOption

abbrev pub forms_max_index : ℕ
forms_max_index = 7

-- What a field adds to the array.
unfoldable pub field_options : Key → List ℕ → List FormOption
field_options name v = copy_name v ∷ []
field_options contents v = copy_contents v ∷ contents_length (length v) ∷ []
field_options file v = file_path v ∷ []
field_options content_type v = type_of v ∷ []
field_options filename v = file_name v ∷ []
field_options unknown v = []

-- The inner loop; `forms` is the array up to forms_index.
unfoldable pub fill_forms : List FormOption → List Field → List FormOption
fill_forms forms [] = forms
fill_forms forms (f ∷ fields) =
    let rest = fill_forms (forms ++ field_options f.key f.value) fields in
    if ltb (length forms) forms_max_index then rest else forms

-- The array of forms_max_index + 1 entries with its end; `none` is a store behind it.
unfoldable pub close_forms : List FormOption → Option (List FormOption)
close_forms forms =
    if ltb (length forms) (forms_max_index + 1) then some (forms ++ form_end ∷ []) else none

-- The items of the post, a null pointer, or a store outside the array.
pub data HttpPost : Type 0 where
  items : List (List FormOption) → HttpPost
  null_post : HttpPost
  overrun : HttpPost

abbrev first_item : List (List FormOption) → HttpPost
first_item [] = null_post
first_item (i ∷ is) = items (i ∷ is)

-- The outer loop over the inner tables; `formadd` says whether curl_formadd takes an array.
unfoldable pub to_httppost :
    (List FormOption → Bool) → List (List FormOption) → List (List Field) → HttpPost
to_httppost formadd added [] = first_item added
to_httppost formadd added (fields ∷ tables) = elim (close_forms (fill_forms [] fields)) [
  | none ↦ overrun
  | some forms ↦
      let rest = to_httppost formadd (added ++ forms ∷ []) tables in
      if formadd forms then rest else null_post
]

-- All that the fields say, in order.
unfoldable pub all_options : List Field → List FormOption
all_options [] = []
all_options (f ∷ fields) = field_options f.key f.value ++ all_options fields

abbrev is : Key → Key → ℕ
is name name = 1
is contents contents = 1
is file file = 1
is content_type content_type = 1
is filename filename = 1
is j k = 0

-- How often a key stands in a table.
unfoldable pub times : Key → List Field → ℕ
times k [] = 0
times k (f ∷ fields) = is k f.key + times k fields

-- A Lua table has a key at most once.
pub record IsTable (fields : List Field) : Type 0 where
  pub one_name : times name fields ≤ 1
  pub one_contents : times contents fields ≤ 1
  pub one_file : times file fields ≤ 1
  pub one_content_type : times content_type fields ≤ 1
  pub one_filename : times filename fields ≤ 1

-- The array of a table of fields.
unfoldable pub whole_item : List Field → List FormOption
whole_item fields = all_options fields ++ form_end ∷ []

-- A part of a multipart post.
pub record Part : Type 0 where
  pub part_name : Option (List ℕ)
  pub part_contents : Option (List ℕ)
  pub part_file : Option (List ℕ)
  pub part_type : Option (List ℕ)
  pub part_filename : Option (List ℕ)

unfoldable pub no_part : Part
no_part = record {
  part_name = none;
  part_contents = none;
  part_file = none;
  part_type = none;
  part_filename = none;
}

-- What libcurl documents of CURLFORM_ARRAY: the part that the entries up to CURLFORM_END describe.
-- CURLFORM_CONTENTSLENGTH is the size of the contents before it.
unfoldable pub part_of : Part → List FormOption → Part
part_of p [] = p
part_of p (copy_name v ∷ forms) = part_of (record p { part_name = some v }) forms
part_of p (copy_contents v ∷ forms) = part_of (record p { part_contents = some v }) forms
part_of p (contents_length n ∷ forms) =
    part_of (record p { part_contents = Option.map (take n) p.part_contents }) forms
part_of p (file_path v ∷ forms) = part_of (record p { part_file = some v }) forms
part_of p (type_of v ∷ forms) = part_of (record p { part_type = some v }) forms
part_of p (file_name v ∷ forms) = part_of (record p { part_filename = some v }) forms
part_of p (form_end ∷ forms) = p

-- The part that a Lua table asks for: each field sets what its key names.
abbrev set_key : Part → Key → List ℕ → Part
set_key p name v = record p { part_name = some v }
set_key p contents v = record p { part_contents = some v }
set_key p file v = record p { part_file = some v }
set_key p content_type v = record p { part_type = some v }
set_key p filename v = record p { part_filename = some v }
set_key p unknown v = p

unfoldable pub table_part : Part → List Field → Part
table_part p [] = p
table_part p (f ∷ fields) = table_part (set_key p f.key f.value) fields

pub data AllTables : List (List Field) → Type 0 where
  nil : AllTables []
  cons :
      {fields : List Field} {tables : List (List Field)}
      → IsTable fields
      → AllTables tables
      → AllTables (fields ∷ tables)
