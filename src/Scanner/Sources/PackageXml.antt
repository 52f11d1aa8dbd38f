-- ===== src/Scanner/Sources/PackageXml.antt =====
-- The ROS dependencies: `extract_package_xml_deps` of security/cve_scanner.py. A parsed file is the
-- list of the children of its root.
pub mod Listed
use schunk_fts_ros.Base.{
  Bool, false, ◌||◌, Option, none, some, List, [], ◌∷◌, Text, codes, same, if◌then◌else◌,
}
use schunk_fts_ros.Strings.{strip, contains, find, is_empty}
use schunk_fts_ros.Scanner.{Dependency}
use schunk_fts_ros.Scanner.Sources.{Found, nothing_found, note, internal_packages}

abbrev pub build_tool_packages : List Text
build_tool_packages =
    codes "ament_cmake"
    ∷ codes "ament_cmake_pytest"
    ∷ codes "ament_cmake_copyright"
    ∷ codes "ament_lint_auto"
    ∷ codes "ament_lint_common"
    ∷ codes "ament_copyright"
    ∷ codes "rosidl_default_generators"
    ∷ codes "rosidl_default_runtime"
    ∷ codes "launch_pytest"
    ∷ codes "python3-pytest"
    ∷ []

abbrev pub ros_upstream_repos : List (Text × Text)
ros_upstream_repos =
    (codes "rclpy", codes "ros2/rclpy")
    ∷ (codes "launch", codes "ros2/launch")
    ∷ (codes "launch_ros", codes "ros2/launch_ros")
    ∷ (codes "geometry_msgs", codes "ros2/common_interfaces")
    ∷ (codes "std_srvs", codes "ros2/common_interfaces")
    ∷ (codes "sensor_msgs", codes "ros2/common_interfaces")
    ∷ (codes "diagnostic_msgs", codes "ros2/common_interfaces")
    ∷ (codes "std_msgs", codes "ros2/common_interfaces")
    ∷ (codes "example_interfaces", codes "ros2/example_interfaces")
    ∷ []

abbrev pub dep_tags : List Text
dep_tags =
    codes "depend"
    ∷ codes "build_depend"
    ∷ codes "buildtool_depend"
    ∷ codes "exec_depend"
    ∷ codes "run_depend"
    ∷ codes "test_depend"
    ∷ []

-- A child of the root of a package.xml: its tag, and its text if it has one.
abbrev pub Child : Type 0
Child = Text × Option Text

unfoldable pub ros_dependency : Text → Text → Dependency
ros_dependency source name = record {
  name = name;
  version = [];
  ecosystem = codes "ROS";
  source = source;
  upstream_repo = elim (find name ros_upstream_repos) [ none ↦ [] | some repo ↦ repo ];
}

abbrev pub is_skipped : Text → Bool
is_skipped name =
    is_empty name || contains name internal_packages || contains name build_tool_packages

-- The body of the inner loop.
unfoldable pub note_child : Text → Option Text → Found → Found
unfolding note ros_dependency
note_child source none s = s
note_child source (some text) s =
    let name = strip text in
    if is_skipped name then s else note name false (ros_dependency source name) s

unfoldable pub note_tag : Text → Text → List Child → Found → Found
unfolding note_child
note_tag source tag [] s = s
note_tag source tag ((t, text) ∷ children) s =
    note_tag source tag children (if same t tag then note_child source text s else s)

unfoldable pub note_tags : Text → List Text → List Child → Found → Found
unfolding note_tag
note_tags source [] children s = s
note_tags source (tag ∷ tags) children s =
    note_tags source tags children (note_tag source tag children s)

-- The files with the children of their roots; `none` is a ParseError.
unfoldable pub package_xml_files : List (Text × Option (List Child)) → Found → Found
unfolding note_tags
package_xml_files [] s = s
package_xml_files ((source, none) ∷ files) s = package_xml_files files s
package_xml_files ((source, some children) ∷ files) s =
    package_xml_files files (note_tags source dep_tags children s)

unfoldable pub extract_package_xml_deps : List (Text × Option (List Child)) → List Dependency
unfolding package_xml_files
extract_package_xml_deps files = (package_xml_files files nothing_found).deps
