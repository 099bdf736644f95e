-- ===== src/HashedConfigMap/Tests.antt =====
-- The theorems on a handler at a small namespace, with a hash that is the content and a padding.
use konflux_ci.Prelude.{[], ◌∷◌, ◌≡◌, refl, none, some, ok, Memᴰ, ◌⊎◌, ◌&◌, ne_of_beq, string_eq}
use konflux_ci.HashedConfigMap.{
  ConfigMap, Handler, HashApi, delete_call, take_text, generate_hash_suffix, build_config_map_name,
  config_map_of, delete_old, cleanup_old, apply, MayDelete, apply_deletes, apply_cleans,
}

abbrev dex_handler : Handler
dex_handler = record {
  base_name = "dex";
  namespace = "ui";
  data_key = "config";
  label = "managed";
  field_manager = "manager";
}

abbrev old_map : ConfigMap
old_map = record {
  namespace = "ui";
  name = "dex-0000000000";
  labels = [];
  contents = [];
  controller = none;
}

abbrev small_hash_api : HashApi
small_hash_api = record {
  sha256_hex = λ content. content & "abcdefghijkl";
  set_controller_reference = λ owner cm. ok (record cm { controller = some owner });
  patch = λ log cm manager. ok cm;
  list = λ log namespace label. ok (old_map ∷ []);
  delete = λ log cm. none;
}

abbrev owned_map : ConfigMap
owned_map = record (config_map_of small_hash_api dex_handler "x") { controller = some "u1" }

name_test : build_config_map_name small_hash_api dex_handler "dex" "x" ≡ "dex-xabcdefghi"
unfolding build_config_map_name generate_hash_suffix take_text
name_test = refl

apply_deletes_example :
    Memᴰ (delete_call "dex-0000000000") []
    ⊎ MayDelete small_hash_api dex_handler
        (build_config_map_name small_hash_api dex_handler "dex" "x")
        "dex-0000000000"
unfolding apply cleanup_old delete_old build_config_map_name generate_hash_suffix take_text
    config_map_of
apply_deletes_example =
    apply_deletes small_hash_api dex_handler "u1" "x" [] "dex-0000000000" (Memᴰ.head refl)

apply_cleans_example :
    ((apply small_hash_api dex_handler "u1" "x" []).0
      ≡ ok (build_config_map_name small_hash_api dex_handler "dex" "x", owned_map))
    × Memᴰ (delete_call old_map.name) (apply small_hash_api dex_handler "u1" "x" []).1
unfolding build_config_map_name generate_hash_suffix take_text
apply_cleans_example =
    apply_cleans small_hash_api dex_handler "u1" "x" [] owned_map owned_map old_map (old_map ∷ [])
      refl refl refl (Memᴰ.head refl)
      (ne_of_beq {a = "dex-0000000000"} {b = "dex-xabcdefghi"} refl, refl)
