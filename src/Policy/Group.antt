-- ===== src/Policy/Group.antt =====
-- internal/policy/group.go: groups compiled from the configuration, and who belongs to which.
use sis.Base.{Option, none, some, List, [], ◌∷◌, Str, eqs, if◌then◌else◌, codes}
use sis.Base.Map.{lookup, insert}
use sis.Base.Results.{Result, ok, err, ◌>>=◌, wrap}
use sis.Base.Strings.{str_eq}
use sis.Policy.Config.{ScheduleConfig, GroupConfig}
use sis.Policy.Domains
use sis.Policy.Domains.{Domains, new_domains}
use sis.Policy.Errors.{
  Error, group_name_required, default_group_required, invalid_domain, in_schedule,
}
use sis.Policy.Names.{Unicode}
use sis.Policy.Schedule.{CompiledSchedule, compile_schedule}

pub record Group : Type 0 where
  pub name : Str
  pub base_lists : List Str
  pub allowlist_tree : Option Domains
  pub schedules : List CompiledSchedule

pub record Identity : Type 0 where
  pub key : Str
  pub kind : Str
  pub ip : Str

-- `StaticClientResolver.GroupOf`.
unfoldable pub static_group_of : List (Str × Str) → Str → Str
static_group_of r client_key = elim (lookup client_key r) [
  | none ↦ codes "default"
  | some group ↦ if eqs group (codes "") then codes "default" else group
]

-- A stored client, as far as StoreClientResolver reads it: `none` for an error or a nil client.
abbrev pub ClientGroups : Type 0
ClientGroups = Str → Option Str

-- `StoreClientResolver.GroupOf`; the store may be nil.
unfoldable pub store_group_of : Option ClientGroups → Str → Str
store_group_of none client_key = codes "default"
store_group_of (some clients) client_key =
    if eqs client_key (codes "") then codes "default" else elim (clients client_key) [
      | none ↦ codes "default"
      | some group ↦ if eqs group (codes "") then codes "default" else group
    ]

module _ (u : Unicode) where
  -- A loop that adds domains and stops at the first that Add refuses.
  unfoldable pub add_all : (Str → Error) → Option Domains → List Str → Result Error (Option Domains)
  add_all fault d [] = ok d
  add_all fault d (domain ∷ rest) =
      let (d', added) = Domains.add u d domain in
      let later = add_all fault d' rest in if added then later else err (fault domain)

  unfoldable pub compile_schedules :
      Str → List ScheduleConfig → Result Error (List CompiledSchedule)
  compile_schedules group [] = ok []
  compile_schedules group (schedule ∷ rest) = do
    compiled ← wrap (in_schedule group schedule.name) (compile_schedule u.fold schedule)
    later ← compile_schedules group rest
    ok (compiled ∷ later)

  -- One round of the loop of CompileGroups.
  unfoldable pub compile_group : GroupConfig → Result Error Group
  unfolding add_all compile_schedules
  compile_group raw = if eqs raw.name (codes "") then err group_name_required else do
    tree ← add_all (invalid_domain raw.name) (some new_domains) raw.allowlist
    schedules ← compile_schedules raw.name raw.schedules
    ok (record {
      name = raw.name;
      base_lists = raw.blocklists;
      allowlist_tree = tree;
      schedules = schedules;
    })

  unfoldable pub compile_all :
      List (Str × Group) → List GroupConfig → Result Error (List (Str × Group))
  unfolding compile_group
  compile_all out [] = ok out
  compile_all out (raw ∷ rest) = do g ← compile_group raw; compile_all (insert g.name g out) rest

  -- `CompileGroups`.
  unfoldable pub compile_groups : List GroupConfig → Result Error (List (Str × Group))
  unfolding compile_all
  compile_groups groups = do
    out ← compile_all [] groups
    elim (lookup (codes "default") out) [ none ↦ err default_group_required | some g ↦ ok out ]
