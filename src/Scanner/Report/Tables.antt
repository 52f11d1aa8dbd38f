-- ===== src/Scanner/Report/Tables.antt =====
-- The tables of the report have a row for every dependency of a scan.
use schunk_fts_ros.Base.{
  ◌≡◌, refl, Bool, true, false, ◌||◌, Option, List, [], ◌∷◌, ◌++◌, map, Text, codes, same, same→eq,
  same_self, arith, Bool-cases, inl, inr, if◌then◌else◌,
}
use mathlib.Core.List.{Memᴰ}
use mathlib.Core.List.Memᴰ
use mathlib.Core.List.Memᴰ.{head, tail}
use schunk_fts_ros.Strings.{contains}
use schunk_fts_ros.Strings.Sets.{contains-append}
use schunk_fts_ros.Scanner.{Dependency}
use schunk_fts_ros.Scanner.Distinct.{IsSublist, none_left, keep, strike, deduplicate_deps_lem}
use schunk_fts_ros.Scanner.Sources.Setup.{Node, extract_setup_py_deps}
use schunk_fts_ros.Scanner.Sources.Cargo.{extract_cargo_lock_deps}
use schunk_fts_ros.Scanner.Sources.PackageXml.{extract_package_xml_deps}
use schunk_fts_ros.Scanner.Found.{are_good}
use schunk_fts_ros.Scanner.Extracted.{
  key_of_setup, stray_setup, key_of_crate, stray_crate, name_of, stray_ros, extract-AreClean,
}
use schunk_fts_ros.Scanner.Scan.{Repository, all_dependencies}
use schunk_fts_ros.Scanner.Report.{
  of_ecosystem, package_row, ros_row, table, python_table, rust_table, ros_table, dependency_lines,
}

-- The row of a dependency.
abbrev pub row : Dependency → Text
row d = if same d.ecosystem (codes "ROS") then ros_row d else package_row d

abbrev pub has_table : Dependency → Bool
has_table d =
    same d.ecosystem (codes "PyPI")
    || same d.ecosystem (codes "crates.io")
    || same d.ecosystem (codes "ROS")

contains-map :
    (f : Dependency → Text) (d : Dependency) (ds : List Dependency)
    → Memᴰ d ds
    → contains (f d) (map f ds) ≡ true
unfolding contains
contains-map f d [] m = elim m [ ]
contains-map f d (x ∷ ds) (head e) = rw e (ground (arith, same_self (f x)))
contains-map f d (x ∷ ds) (tail m) = ground (arith, contains-map f d ds m)

Mem-of_ecosystem :
    (name : Text) (d : Dependency) (ds : List Dependency)
    → same d.ecosystem name ≡ true
    → Memᴰ d ds
    → Memᴰ d (of_ecosystem name ds)
unfolding of_ecosystem
Mem-of_ecosystem name d [] h m = elim m [ ]
Mem-of_ecosystem name d (x ∷ ds) h (head e) = rw (← e, h) (head refl)
Mem-of_ecosystem name d (x ∷ ds) h (tail m) = elim (Bool-cases (same x.ecosystem name)) [
  | inl y ↦ rw y (tail (Mem-of_ecosystem name d ds h m))
  | inr n ↦ rw n (Mem-of_ecosystem name d ds h m)
]

contains-table :
    (t title columns rule : Text) (rows : List Text)
    → contains t rows ≡ true
    → contains t (table title columns rule rows) ≡ true
unfolding table contains
contains-table t title columns rule [] h = h
contains-table t title columns rule (r ∷ rows) h =
    ground (arith, contains-append t rows ([] ∷ []), h)

contains-table_row :
    (title columns rule name : Text) (f : Dependency → Text) (d : Dependency) (ds : List Dependency)
    → same d.ecosystem name ≡ true
    → Memᴰ d ds
    → contains (f d) (table title columns rule (map f (of_ecosystem name ds))) ≡ true
contains-table_row title columns rule name f d ds h m =
    contains-table (f d) title columns rule _
      (contains-map f d (of_ecosystem name ds) (Mem-of_ecosystem name d ds h m))

package-row :
    (name : Text) (d : Dependency)
    → same d.ecosystem name ≡ true
    → same name (codes "ROS") ≡ false
    → row d ≡ package_row d
package-row name d h n = rw (same→eq d.ecosystem name h, n)

-- A dependency of an ecosystem with a table has its row in it.
pub contains-dependency_lines :
    (d : Dependency) (ds : List Dependency)
    → has_table d ≡ true
    → Memᴰ d ds
    → contains (row d) (dependency_lines ds) ≡ true
unfolding dependency_lines contains
contains-dependency_lines d ds h m =
    rw
      (
        contains-append (row d) (python_table ds) (rust_table ds ++ ros_table ds),
        contains-append (row d) (rust_table ds) (ros_table ds),
      )
      (elim (Bool-cases (same d.ecosystem (codes "PyPI"))) [
        | inl p ↦ ground (arith, in_python p)
        | inr np ↦ elim (Bool-cases (same d.ecosystem (codes "crates.io"))) [
          | inl c ↦ ground (arith, in_rust c)
          | inr nc ↦ ground (arith, in_ros (ground (arith, h, np, nc)))
        ]
      ])
  where
    in_python : same d.ecosystem (codes "PyPI") ≡ true → contains (row d) (python_table ds) ≡ true
    in_python p =
        rw (package-row (codes "PyPI") d p refl)
          (unfold python_table in contains-table_row _ _ _ (codes "PyPI") package_row d ds p m)

    in_rust : same d.ecosystem (codes "crates.io") ≡ true → contains (row d) (rust_table ds) ≡ true
    in_rust c =
        rw (package-row (codes "crates.io") d c refl)
          (unfold rust_table in contains-table_row _ _ _ (codes "crates.io") package_row d ds c m)

    in_ros : same d.ecosystem (codes "ROS") ≡ true → contains (row d) (ros_table ds) ≡ true
    in_ros r = rw r (unfold ros_table in contains-table_row _ _ _ (codes "ROS") ros_row d ds r m)

Mem-IsSublist : {d : Dependency} {xs ys : List Dependency} → IsSublist xs ys → Memᴰ d xs → Memᴰ d ys
Mem-IsSublist none_left m = elim m [ ]
Mem-IsSublist (keep s) (head e) = head e
Mem-IsSublist (keep s) (tail m) = tail (Mem-IsSublist s m)
Mem-IsSublist (strike s) m = tail (Mem-IsSublist s m)

good-Mem :
    (key : Dependency → Text) (bad : Dependency → Bool) (d : Dependency) (ds : List Dependency)
    → are_good key bad ds ≡ true
    → Memᴰ d ds
    → bad d ≡ false
good-Mem key bad d [] h m = elim m [ ]
good-Mem key bad d (x ∷ ds) h (head e) = rw e (ground (arith, h))
good-Mem key bad d (x ∷ ds) h (tail m) = good-Mem key bad d ds (ground (arith, h)) m

-- Every dependency of a scan is of an ecosystem that has a table.
pub all_dependencies-has_table :
    (parse : Text → Option (List Node)) (files : Repository) (d : Dependency)
    → Memᴰ d (all_dependencies parse files)
    → has_table d ≡ true
unfolding all_dependencies
all_dependencies-has_table parse files d m =
    let pip = extract_setup_py_deps parse files.setup_py in
    let crates = extract_cargo_lock_deps files.cargo_lock in
    let ros = extract_package_xml_deps files.package_xml in
    let (clean_pip, clean_crates, clean_ros) =
      extract-AreClean parse files.setup_py files.cargo_lock files.package_xml in
    elim (Memᴰ.append_cases (pip ++ crates) (Mem-IsSublist (deduplicate_deps_lem _).0 m)) [
      | inr in_ros ↦ ground (arith, good-Mem name_of stray_ros d ros clean_ros.1 in_ros)
      | inl other ↦ elim (Memᴰ.append_cases pip other) [
        | inl in_pip ↦ ground (arith, good-Mem key_of_setup stray_setup d pip clean_pip.1 in_pip)
        | inr in_crates ↦
            ground (arith, good-Mem key_of_crate stray_crate d crates clean_crates.1 in_crates)
      ]
    ]
