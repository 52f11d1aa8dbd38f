-- ===== src/Scanner/Extracted.antt =====
-- What the three extractors find: no dependency twice, and none of the repository's own packages.
use schunk_fts_ros.Base.{
  Bool, true, false, not, ◌||◌, Option, none, some, List, [], ◌∷◌, Text, same, arith, drop,
  Bool-cases, inl, inr, codes, if◌then◌else◌,
}
use schunk_fts_ros.Strings.{contains, strip, split}
use schunk_fts_ros.Scanner.{Dependency}
use schunk_fts_ros.Scanner.Sources.{Found, nothing_found, File, internal_packages}
use schunk_fts_ros.Scanner.Sources.Setup.{
  Node, normal, setup_key, note_requirements, parse_setup_py_install_requires, setup_py_files,
  extract_setup_py_deps,
}
use schunk_fts_ros.Scanner.Sources.Cargo.{
  cargo_key, note_crate, note_blocks, cargo_lock_files, extract_cargo_lock_deps, search_line,
}
use schunk_fts_ros.Scanner.Sources.PackageXml.{
  Child, dep_tags, build_tool_packages, is_skipped, ros_dependency, note_child, note_tag, note_tags,
  package_xml_files, extract_package_xml_deps,
}
use schunk_fts_ros.Scanner.Found.{AreClean, IsClean, note-IsClean, nothing-IsClean}

abbrev pub is_internal : Text → Bool
is_internal name = contains name internal_packages

abbrev pub key_of_setup : Dependency → Text
key_of_setup d = setup_key d.name d.version

abbrev pub stray_setup : Dependency → Bool
stray_setup d = is_internal (normal d.name) || not (same d.ecosystem (codes "PyPI"))

note_requirements-IsClean :
    (source : Text) (rs : List (Text × Text)) (s : Found)
    → IsClean key_of_setup stray_setup s
    → IsClean key_of_setup stray_setup (note_requirements source rs s)
unfolding note_requirements
note_requirements-IsClean source [] s h = h
note_requirements-IsClean source ((name, version) ∷ rs) s h =
    note_requirements-IsClean source rs _ (
      note-IsClean key_of_setup stray_setup
        (record {
          name = name;
          version = version;
          ecosystem = codes "PyPI";
          source = source;
          upstream_repo = [];
        })
        s (is_internal (normal name)) h (λ e. ground (arith, e)))

setup_py_files-IsClean :
    (parse : Text → Option (List Node)) (files : List File) (s : Found)
    → IsClean key_of_setup stray_setup s
    → IsClean key_of_setup stray_setup (setup_py_files parse files s)
unfolding setup_py_files
setup_py_files-IsClean parse [] s h = h
setup_py_files-IsClean parse ((source, none) ∷ files) s h = setup_py_files-IsClean parse files s h
setup_py_files-IsClean parse ((source, some content) ∷ files) s h =
    setup_py_files-IsClean parse files _
      (note_requirements-IsClean source (parse_setup_py_install_requires parse content) s h)

abbrev pub key_of_crate : Dependency → Text
key_of_crate d = cargo_key d.name d.version

abbrev pub stray_crate : Dependency → Bool
stray_crate d = is_internal d.name || not (same d.ecosystem (codes "crates.io"))

note_crate-IsClean :
    (source : Text) (name version : Option Text) (s : Found)
    → IsClean key_of_crate stray_crate s
    → IsClean key_of_crate stray_crate (note_crate source name version s)
unfolding note_crate
note_crate-IsClean source none version s h = h
note_crate-IsClean source (some name) none s h = h
note_crate-IsClean source (some name) (some version) s h =
    note-IsClean key_of_crate stray_crate
      (record {
        name = name;
        version = version;
        ecosystem = codes "crates.io";
        source = source;
        upstream_repo = [];
      })
      s (is_internal name) h (λ e. ground (arith, e))

note_blocks-IsClean :
    (source : Text) (blocks : List Text) (s : Found)
    → IsClean key_of_crate stray_crate s
    → IsClean key_of_crate stray_crate (note_blocks source blocks s)
unfolding note_blocks
note_blocks-IsClean source [] s h = h
note_blocks-IsClean source (block ∷ blocks) s h = note_blocks-IsClean source blocks _ (
    note_crate-IsClean source (search_line true (codes "name") block)
      (search_line true (codes "version") block) s h)

cargo_lock_files-IsClean :
    (files : List File) (s : Found)
    → IsClean key_of_crate stray_crate s
    → IsClean key_of_crate stray_crate (cargo_lock_files files s)
unfolding cargo_lock_files
cargo_lock_files-IsClean [] s h = h
cargo_lock_files-IsClean ((source, none) ∷ files) s h = cargo_lock_files-IsClean files s h
cargo_lock_files-IsClean ((source, some content) ∷ files) s h =
    cargo_lock_files-IsClean files _
      (note_blocks-IsClean source (drop 1 (split (codes "[[package]]") content)) s h)

abbrev pub name_of : Dependency → Text
name_of d = d.name

abbrev pub stray_ros : Dependency → Bool
stray_ros d =
    is_internal d.name
    || contains d.name build_tool_packages
    || not (same d.ecosystem (codes "ROS"))

note_child-IsClean :
    (source : Text) (text : Option Text) (s : Found)
    → IsClean name_of stray_ros s
    → IsClean name_of stray_ros (note_child source text s)
unfolding note_child ros_dependency
note_child-IsClean source none s h = h
note_child-IsClean source (some text) s h = elim (Bool-cases (is_skipped (strip text))) [
  | inl skipped ↦ rw skipped h
  | inr taken ↦ rw taken (
      note-IsClean name_of stray_ros (ros_dependency source (strip text)) s false h
        (λ e. ground arith))
]

note_tag-IsClean :
    (source tag : Text) (children : List Child) (s : Found)
    → IsClean name_of stray_ros s
    → IsClean name_of stray_ros (note_tag source tag children s)
unfolding note_tag
note_tag-IsClean source tag [] s h = h
note_tag-IsClean source tag ((t, text) ∷ children) s h =
    note_tag-IsClean source tag children _
      (elim (same t tag)
        as (λ b. IsClean name_of stray_ros (if b then note_child source text s else s)) [
          | true ↦ note_child-IsClean source text s h
          | false ↦ h
        ])

note_tags-IsClean :
    (source : Text) (tags : List Text) (children : List Child) (s : Found)
    → IsClean name_of stray_ros s
    → IsClean name_of stray_ros (note_tags source tags children s)
unfolding note_tags
note_tags-IsClean source [] children s h = h
note_tags-IsClean source (tag ∷ tags) children s h =
    note_tags-IsClean source tags children _ (note_tag-IsClean source tag children s h)

package_xml_files-IsClean :
    (files : List (Text × Option (List Child))) (s : Found)
    → IsClean name_of stray_ros s
    → IsClean name_of stray_ros (package_xml_files files s)
unfolding package_xml_files
package_xml_files-IsClean [] s h = h
package_xml_files-IsClean ((source, none) ∷ files) s h = package_xml_files-IsClean files s h
package_xml_files-IsClean ((source, some children) ∷ files) s h =
    package_xml_files-IsClean files _ (note_tags-IsClean source dep_tags children s h)

-- Whatever the files hold: the Python packages differ in their normal name or their version, the
-- crates in their name or their version, and the ROS packages in their name; each is of the
-- ecosystem of its files, none of them is a package of this repository, and none of the ROS
-- packages a build tool.
pub extract-AreClean :
    (parse : Text → Option (List Node)) (setup_py cargo_lock : List File)
    (package_xml : List (Text × Option (List Child)))
    → AreClean key_of_setup stray_setup (extract_setup_py_deps parse setup_py)
      × AreClean key_of_crate stray_crate (extract_cargo_lock_deps cargo_lock)
      × AreClean name_of stray_ros (extract_package_xml_deps package_xml)
unfolding extract_setup_py_deps extract_cargo_lock_deps extract_package_xml_deps
extract-AreClean parse setup_py cargo_lock package_xml = (
  (setup_py_files-IsClean parse setup_py nothing_found
      (nothing-IsClean key_of_setup stray_setup)).clean,
  (cargo_lock_files-IsClean cargo_lock nothing_found
      (nothing-IsClean key_of_crate stray_crate)).clean,
  (package_xml_files-IsClean package_xml nothing_found (nothing-IsClean name_of stray_ros)).clean,
)
