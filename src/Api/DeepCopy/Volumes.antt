-- ===== src/Api/DeepCopy/Volumes.antt =====
-- api/v1beta1/zz_generated.deepcopy.go: the volumes of an `Authorino`, stored, and their copies. The copy
-- of a `KeyToPath` is the API machinery's: a parameter.
use authorino_operator.Prelude.{ℤ, String, List, ◌++◌}
use authorino_operator.Kube.{KeyToPath}
use authorino_operator.Api.{VolumeSpec, VolumesSpec}
use authorino_operator.Api.DeepCopy.{
  Copier, Pointer, address_of, addresses_items, copy_items, copy_pointer, read_items, read_pointer,
  read_slice,
}

pub record StoredVolumeSpec (K : Type 0) : Type 0 where
  pub name : String
  pub mount_path : String
  pub config_maps : Pointer (List String)
  pub secrets : Pointer (List String)
  pub items : Pointer (List K)

abbrev pub volume_spec_copier :
    {K : Type 0} → Copier K KeyToPath → Copier (StoredVolumeSpec K) VolumeSpec
volume_spec_copier key = record {
  read = λ x. record {
    name = x.name;
    mount_path = x.mount_path;
    config_maps = read_slice x.config_maps;
    secrets = read_slice x.secrets;
    items = read_items key x.items;
  };
  addresses =
      λ x. address_of x.config_maps ++ (address_of x.secrets ++ (addresses_items key x.items));
  copy = λ x next0.
      let (config_maps, next1) = copy_pointer x.config_maps next0 in
      let (secrets, next2) = copy_pointer x.secrets next1 in
      let (items, next3) = copy_items key x.items next2 in
      (record x { config_maps = config_maps; secrets = secrets; items = items }, next3);
}

pub record StoredVolumesSpec (K : Type 0) : Type 0 where
  pub items : Pointer (List (StoredVolumeSpec K))
  pub default_mode : Pointer ℤ

abbrev pub volumes_spec_copier :
    {K : Type 0} → Copier K KeyToPath → Copier (StoredVolumesSpec K) VolumesSpec
volumes_spec_copier key = record {
  read = λ x. record {
    items = read_items (volume_spec_copier key) x.items;
    default_mode = read_pointer x.default_mode;
  };
  addresses = λ x. addresses_items (volume_spec_copier key) x.items ++ (address_of x.default_mode);
  copy = λ x next0.
      let (items, next1) = copy_items (volume_spec_copier key) x.items next0 in
      let (default_mode, next2) = copy_pointer x.default_mode next1 in
      (record { items = items; default_mode = default_mode }, next2);
}
