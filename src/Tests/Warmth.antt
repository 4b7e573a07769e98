-- ===== src/Tests/Warmth.antt =====
-- Tests of the access list.
use solenoid.Base.{refl, [], ◌∷◌}
use solenoid.Ext.{Ext, AccessListItem, apply_access_list}
use solenoid.Ext.AccessList.{IsWarm, apply_access_list-IsWarm}
use solenoid.Tests.Data.{world}

abbrev named : AccessListItem
named = record { address = 0xdd; storage_keys = 1 ∷ 2 ∷ [] }

abbrev listing : Ext
listing = record world { tx_ctx = record world.tx_ctx { access_list = named ∷ [] } }

apply_access_list-IsWarm_example : IsWarm 0xdd 2 (apply_access_list listing)
apply_access_list-IsWarm_example = apply_access_list-IsWarm listing named 0 1 2 refl refl
