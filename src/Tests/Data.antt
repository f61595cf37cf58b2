-- ===== src/Tests/Data.antt =====
-- A small deployment: one administrator by configuration, one team with an administrator of its
-- own, and a directory that everybody may read.
use mathlib.Core.List.Perm
use ochakai.Common.{Bool, true, false, List, [], ◌∷◌, Option, some}
use ochakai.Text.{Bytes, codes}
use ochakai.Domain.Actor.{Actor}
use ochakai.Domain.Access.{AccessRule}
use ochakai.Service.Access.{Platform, Config, holds, Service}
use ochakai.Service.Access.Boundary.{KeepsRows}

abbrev pub root : Actor
root = record { kind = codes "human"; name = codes "root"; via = []; producer = [] }

abbrev pub ann : Actor
ann = record { kind = codes "human"; name = codes "ann"; via = []; producer = [] }

abbrev pub bob : Actor
bob = record { kind = codes "human"; name = codes "bob"; via = []; producer = [] }

abbrev pub rule : Bytes → Bytes → Bool → Bool → AccessRule
rule prefix principal may_write may_admin = record {
  prefix = prefix;
  principal = principal;
  may_write = may_write;
  may_admin = may_admin;
  granted_at = 0;
  granted_by = codes "human:root";
}

abbrev pub docs_rule : AccessRule
docs_rule = rule (codes "docs") (codes "*") false false

abbrev pub team_rule : AccessRule
team_rule = rule (codes "teams/a") (codes "human:ann") true true

abbrev pub table : List AccessRule
table = docs_rule ∷ team_rule ∷ []

abbrev pub platform : Platform
platform = record { nfc = λ s. s; digest = λ s. s; order_rows = λ rows. rows }

pub platform-KeepsRows : KeepsRows platform
platform-KeepsRows rows = Perm.refl rows

abbrev pub config : Option Config
config = some (record { admins = codes "human:root" ∷ []; read_only = false })

abbrev pub deployment : Service
deployment = record { config = config; store = holds table }
