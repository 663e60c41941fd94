-- ===== src/Workspace/Volumes.antt =====
-- What happens to containers and volumes over `Provision` and `Destroy`.
use forge_engine.Prelude.{
  ◌≡◌, refl, Bool, false, ◌||◌, some, List, [], ◌∷◌, ◌++◌, Bytes, bytes, bytes_eq, has_prefix,
  trim_prefix, arith,
}
use forge_engine.Workspace.Docker.{
  Call, container_create, container_start, container_inspect, container_stop, container_remove,
  volume_remove, workspace_volume, Removal, removed, not_found, remove_failed, destroy_sandbox,
}

-- Whether one of the calls asks for the removal of a volume.
unfoldable pub removes_volume : Bytes → List Call → Bool
unfolding bytes_eq
removes_volume v [] = false
removes_volume v (c ∷ calls) = asks c || removes_volume v calls
  where
    asks : Call → Bool
    asks (container_create spec) = false
    asks (container_start id) = false
    asks (container_inspect id) = false
    asks (container_stop id) = false
    asks (container_remove id) = false
    asks (volume_remove w) = bytes_eq w v

slash_differs :
    (id name : Bytes) → has_prefix id (bytes "/") ≡ false → bytes_eq (47 ∷ name) id ≡ false
unfolding has_prefix bytes_eq
slash_differs [] name h = refl
slash_differs (c ∷ id) name h = ground arith

-- Docker gives the name of a container with a slash before it. With such a name `Destroy` asks for
-- the removal of no volume of a workspace whose id does not begin with a slash: neither of the
-- container's own workspace, nor, for a container for validation, of the one that it shares.
pub destroy_sandbox-KeepsVolume :
    (workspace_id name id : Bytes) (removal : Removal)
    → has_prefix workspace_id (bytes "/") ≡ false
    → removes_volume
        (workspace_volume workspace_id)
        (destroy_sandbox (some (bytes "/" ++ name)) removal id).0
      ≡ false
unfolding destroy_sandbox removes_volume bytes_eq trim_prefix has_prefix
destroy_sandbox-KeepsVolume w name id removed h = rw (slash_differs w name h) refl
destroy_sandbox-KeepsVolume w name id not_found h = rw (slash_differs w name h) refl
destroy_sandbox-KeepsVolume w name id remove_failed h = refl
