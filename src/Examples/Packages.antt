-- ===== src/Examples/Packages.antt =====
-- The theorems on setup.py and on package.xml, each on an example.
use schunk_fts_ros.Base.{◌≡◌, refl, Option, none, some, List, [], ◌∷◌, map, Text, codes}
use schunk_fts_ros.Strings.{contains}
use schunk_fts_ros.Strings.Sets.{are_distinct}
use schunk_fts_ros.Scanner.Requirement.{is_name_char, is_version_char}
use schunk_fts_ros.Scanner.Sources.Setup.{Node, normal, extract_setup_py_deps}
use schunk_fts_ros.Scanner.Sources.Setup.Pinned.{IsScript, tree, dependency_of, extract-tree}
use schunk_fts_ros.Scanner.Sources.PackageXml.{Child, extract_package_xml_deps}
use schunk_fts_ros.Scanner.Sources.PackageXml.Listed
use schunk_fts_ros.Scanner.Sources.PackageXml.Listed.{
  firsts, listings, extract_package_xml_deps_lem,
}
use schunk_fts_ros.Packaging.{
  pinned, pinned-All, driver_requires, driver_setup, library_requires, library_setup,
}

abbrev parse : Text → Option (List Node)
parse content = some (tree driver_setup)

driver_setup-IsScript : IsScript driver_setup
unfolding contains are_distinct normal is_name_char is_version_char
driver_setup-IsScript = record {
  others_before = refl;
  is_setup = refl;
  others_behind = refl;
  other_keywords = refl;
  more_other_keywords = refl;
  forms = pinned-All driver_requires refl;
  distinct = refl;
  external = refl;
}

library_setup-IsScript : IsScript library_setup
unfolding contains are_distinct normal is_name_char is_version_char
library_setup-IsScript = record {
  others_before = refl;
  is_setup = refl;
  others_behind = refl;
  other_keywords = refl;
  more_other_keywords = refl;
  forms = pinned-All library_requires refl;
  distinct = refl;
  external = refl;
}

extract-tree_example :
    extract_setup_py_deps parse ((codes "schunk_fts_driver/setup.py", some (codes "…")) ∷ [])
    ≡ map (dependency_of (codes "schunk_fts_driver/setup.py")) (map pinned driver_requires)
extract-tree_example =
    extract-tree parse (codes "schunk_fts_driver/setup.py") (codes "…") driver_setup refl
      driver_setup-IsScript

-- Two files: a name twice, a tool of the build, and a file that cannot be parsed.
abbrev package_files : List (Text × Option (List Child))
package_files =
    (
      codes "schunk_fts_driver/package.xml",
      some (
          (codes "exec_depend", some (codes " launch_ros "))
          ∷ (codes "depend", some (codes "rclpy"))
          ∷ (codes "test_depend", some (codes "rclpy"))
          ∷ (codes "buildtool_depend", some (codes "ament_cmake"))
          ∷ []),
    )
    ∷ (codes "broken/package.xml", none)
    ∷ []

extract_package_xml_deps_lem_example :
    extract_package_xml_deps package_files
    ≡ map Listed.dependency_of (firsts [] (listings package_files))
extract_package_xml_deps_lem_example = extract_package_xml_deps_lem package_files
