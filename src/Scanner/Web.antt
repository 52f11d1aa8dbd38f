-- ===== src/Scanner/Web.antt =====
-- What the services on the network answer to security/cve_scanner.py. `requests` and the services
-- are a parameter of the scanner: a function for each request, `none` where the request raises, or
-- where the reply does not have the status 200. A key that an entry lacks is `none`, or the empty
-- list. A score is a decimal number, as the services write it, and not negative.
use schunk_fts_ros.Base.{ℕ, ◌*◌, ◌^◌, Bool, Option, List, Text, ltb, leb}

-- `mantissa / 10 ** places`
pub record Decimal : Type 0 where
  pub mantissa : ℕ
  pub places : ℕ

-- `score > 0`
abbrev pub is_positive : Decimal → Bool
is_positive d = ltb 0 d.mantissa

-- `score >= CVSS_HIGH_THRESHOLD`
unfoldable pub is_high : Decimal → Bool
is_high d = leb (7 * 10 ^ d.places) d.mantissa

-- One entry of `affected`: the name of its package, its versions, and for each of its ranges the
-- value `fixed` of each event.
pub record Affected : Type 0 where
  pub package_name : Option Text
  pub versions : List Text
  pub ranges : List (List (Option Text))

-- An entry of OSV. `scores` has the value `score` of each entry of `severity`, `urls` the value
-- `url` of each reference, and `database_severity` is in `database_specific`.
pub record Vuln : Type 0 where
  pub id : Option Text
  pub summary : Option Text
  pub details : Option Text
  pub scores : List (Option Text)
  pub database_severity : Option Text
  pub aliases : List Text
  pub affected : List Affected
  pub urls : List (Option Text)

-- An advisory of GitHub.
pub record Advisory : Type 0 where
  pub ghsa_id : Option Text
  pub summary : Option Text
  pub severity : Option Text
  pub cve_id : Option Text
  pub html_url : Option Text

-- The values `score` in `cvss_v4` and `cvss` of an advisory, if they are numbers.
pub record Cvss : Type 0 where
  pub cvss_v4 : Option Decimal
  pub cvss : Option Decimal

pub record Query : Type 0 where
  pub name : Text
  pub ecosystem : Text
  pub version : Option Text

pub record Web : Type 0 where
  -- The page of an advisory, and its entry in the REST API.
  pub page : Text → Option Text
  pub entry : Text → Option Cvss
  -- The advisories of an ecosystem that affect a repository, and those of a repository.
  pub advisories : Text → Text → Option (List Advisory)
  pub repo_advisories : Text → Option (List Advisory)
  -- The values `vulns` in the reply to a batch of queries, and the entry of an id.
  pub batch : List Query → Option (List (List Vuln))
  pub vuln : Text → Option Vuln
