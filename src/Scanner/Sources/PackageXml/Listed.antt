-- ===== src/Scanner/Sources/PackageXml/Listed.antt =====
-- What the package.xml files of a repository are read as.
use schunk_fts_ros.Base.{
  ◌≡◌, refl, sym, ap, ◌∙◌, false, Option, none, some, List, [], ◌∷◌, ◌++◌, map, Text, same,
  Bool-cases, inl, inr, if◌then◌else◌,
}
use mathlib.Core.List.{append_assoc, append-nil}
use schunk_fts_ros.Strings.{contains, strip}
use schunk_fts_ros.Scanner.{Dependency}
use schunk_fts_ros.Scanner.Noted.{note_new, note_old}
use schunk_fts_ros.Scanner.Sources.{Found, nothing_found, note}
use schunk_fts_ros.Scanner.Sources.PackageXml.{
  Child, dep_tags, is_skipped, ros_dependency, note_child, note_tag, note_tags, package_xml_files,
  extract_package_xml_deps,
}

-- A name that a file lists, with the file.
abbrev pub Listing : Type 0
Listing = Text × Text

abbrev pub kept : Text → Option Text → List Listing
kept source none = []
kept source (some text) = if is_skipped (strip text) then [] else (source, strip text) ∷ []

-- The names under a tag, in the order of the file.
abbrev pub under_tag : Text → Text → List Child → List Listing
under_tag source tag [] = []
under_tag source tag ((t, text) ∷ children) =
    (if same t tag then kept source text else []) ++ under_tag source tag children

abbrev pub under_tags : Text → List Text → List Child → List Listing
under_tags source [] children = []
under_tags source (tag ∷ tags) children =
    under_tag source tag children ++ under_tags source tags children

-- The files that can be parsed, one after another.
abbrev pub listings : List (Text × Option (List Child)) → List Listing
listings [] = []
listings ((source, none) ∷ files) = listings files
listings ((source, some children) ∷ files) = under_tags source dep_tags children ++ listings files

-- The first listing of each name.
abbrev pub firsts : List Text → List Listing → List Listing
firsts seen [] = []
firsts seen ((source, name) ∷ rest) =
    if contains name seen then firsts seen rest else (source, name) ∷ firsts (name ∷ seen) rest

abbrev pub dependency_of : Listing → Dependency
dependency_of (source, name) = ros_dependency source name

note_listings : List Listing → Found → Found
note_listings [] s = s
note_listings ((source, name) ∷ rest) s =
    note_listings rest (note name false (ros_dependency source name) s)

note_listings-append :
    (xs ys : List Listing) (s : Found)
    → note_listings (xs ++ ys) s ≡ note_listings ys (note_listings xs s)
unfolding note_listings
note_listings-append [] ys s = refl
note_listings-append ((source, name) ∷ xs) ys s = note_listings-append xs ys _

note_child-kept :
    (source : Text) (text : Option Text) (s : Found)
    → note_child source text s ≡ note_listings (kept source text) s
unfolding note_child note_listings
note_child-kept source none s = refl
note_child-kept source (some text) s = elim (Bool-cases (is_skipped (strip text))) [
  | inl e ↦ rw e refl
  | inr e ↦ rw e refl
]

note_tag-under :
    (source tag : Text) (children : List Child) (s : Found)
    → note_tag source tag children s ≡ note_listings (under_tag source tag children) s
unfolding note_tag note_listings
note_tag-under source tag [] s = refl
note_tag-under source tag ((t, text) ∷ children) s = elim (Bool-cases (same t tag)) [
  | inl e ↦ rw e (
      note_tag-under source tag children (note_child source text s)
      ∙ ap (note_listings (under_tag source tag children)) (note_child-kept source text s)
      ∙ sym (note_listings-append (kept source text) (under_tag source tag children) s))
  | inr e ↦ rw e (note_tag-under source tag children s)
]

note_tags-under :
    (source : Text) (tags : List Text) (children : List Child) (s : Found)
    → note_tags source tags children s ≡ note_listings (under_tags source tags children) s
unfolding note_tags note_listings
note_tags-under source [] children s = refl
note_tags-under source (tag ∷ tags) children s =
    note_tags-under source tags children (note_tag source tag children s)
    ∙ ap (note_listings (under_tags source tags children)) (note_tag-under source tag children s)
    ∙ sym (note_listings-append (under_tag source tag children) (under_tags source tags children) s)

package_xml_files-listings :
    (files : List (Text × Option (List Child))) (s : Found)
    → package_xml_files files s ≡ note_listings (listings files) s
unfolding package_xml_files note_listings
package_xml_files-listings [] s = refl
package_xml_files-listings ((source, none) ∷ files) s = package_xml_files-listings files s
package_xml_files-listings ((source, some children) ∷ files) s =
    package_xml_files-listings files (note_tags source dep_tags children s)
    ∙ ap (note_listings (listings files)) (note_tags-under source dep_tags children s)
    ∙ sym (note_listings-append (under_tags source dep_tags children) (listings files) s)

note_listings-firsts :
    (xs : List Listing) (s : Found)
    → (note_listings xs s).deps ≡ s.deps ++ map dependency_of (firsts s.seen xs)
unfolding note_listings
note_listings-firsts [] s = sym (append-nil s.deps)
note_listings-firsts ((source, name) ∷ xs) s = elim (Bool-cases (contains name s.seen)) [
  | inl old ↦ rw old (
      ap (λ (r : Found). (note_listings xs r).deps)
        (note_old name false (ros_dependency source name) s old)
      ∙ note_listings-firsts xs s)
  | inr new ↦ rw new (
      let d = ros_dependency source name in
      ap (λ (r : Found). (note_listings xs r).deps) (note_new name d s new)
      ∙ note_listings-firsts xs (record { deps = s.deps ++ d ∷ []; seen = name ∷ s.seen })
      ∙ append_assoc s.deps (d ∷ []) (map dependency_of (firsts (name ∷ s.seen) xs)))
]

-- The package.xml files of a repository are read as one dependency for each name that is listed
-- under one of the six tags, stripped, not empty, and neither of the repository nor a tool of the
-- build: the files in their order, in a file one tag after another, under a tag in the order of the
-- file, and each name where it is listed first.
pub extract_package_xml_deps_lem :
    (files : List (Text × Option (List Child)))
    → extract_package_xml_deps files ≡ map dependency_of (firsts [] (listings files))
unfolding extract_package_xml_deps
extract_package_xml_deps_lem files =
    ap (λ (r : Found). r.deps) (package_xml_files-listings files nothing_found)
    ∙ note_listings-firsts (listings files) nothing_found
