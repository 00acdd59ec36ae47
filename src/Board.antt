-- ===== src/Board.antt =====
-- porting/impl/board.cc and system_info.cc: the device's UUID, kept in the settings
-- The random engine is a parameter: the value of its n-th call.
pub mod Uuid
pub mod Restart
pub mod Fake
use Prim.Native.Nat.{bit_and, bit_or}
use xiaozhi_pc.Base.{ℕ, ◌%◌, true, false, [], ◌∷◌, ◌++◌}
use xiaozhi_pc.Base.Text.{Bytes, codes}
use xiaozhi_pc.Base.Int.{print_nat}
use xiaozhi_pc.Mqtt.Hex.{print_hex}
use xiaozhi_pc.Nvs.{NvRam}
use xiaozhi_pc.Settings.{Settings, open_settings, get_string, set_string, close_settings}

-- A byte of the engine.
abbrev pub random_byte : (ℕ → ℕ) → ℕ → ℕ
random_byte engine i = engine i % 256

-- The bytes with the version and the variant.
unfoldable pub version_byte : ℕ → ℕ
version_byte b = bit_or (bit_and b 15) 64

unfoldable pub variant_byte : ℕ → ℕ
variant_byte b = bit_or (bit_and b 63) 128

-- The five groups of the text.
abbrev pub group_1 : (ℕ → ℕ) → Bytes
group_1 e = random_byte e 0 ∷ random_byte e 1 ∷ random_byte e 2 ∷ random_byte e 3 ∷ []

abbrev pub group_2 : (ℕ → ℕ) → Bytes
group_2 e = random_byte e 4 ∷ random_byte e 5 ∷ []

abbrev pub group_3 : (ℕ → ℕ) → Bytes
group_3 e = version_byte (random_byte e 6) ∷ random_byte e 7 ∷ []

abbrev pub group_4 : (ℕ → ℕ) → Bytes
group_4 e = variant_byte (random_byte e 8) ∷ random_byte e 9 ∷ []

abbrev pub group_5 : (ℕ → ℕ) → Bytes
group_5 e =
    random_byte e 10
    ∷ random_byte e 11
    ∷ random_byte e 12
    ∷ random_byte e 13
    ∷ random_byte e 14
    ∷ random_byte e 15
    ∷ []

-- `GenerateUuid`: `%02x` of each byte, with dashes between the groups.
unfoldable pub generate_uuid : (ℕ → ℕ) → Bytes
unfolding print_hex version_byte variant_byte
generate_uuid e =
    print_hex false (group_1 e)
    ++ (b'-' ∷ print_hex false (group_2 e)
        ++ (b'-' ∷ print_hex false (group_3 e)
            ++ (b'-' ∷ print_hex false (group_4 e) ++ (b'-' ∷ print_hex false (group_5 e)))))

abbrev pub board_ns : Bytes
board_ns = codes "board"

abbrev pub uuid_key : Bytes
uuid_key = codes "uuid"

-- The rest of the constructor, once the stored text is read.
unfoldable pub keep_uuid : (ℕ → ℕ) → Settings → NvRam → Bytes → Bytes × NvRam
unfolding generate_uuid set_string close_settings
keep_uuid e s r (c ∷ cs) = (c ∷ cs, close_settings s r)
keep_uuid e s r [] =
    let (s', r') = set_string s r uuid_key (generate_uuid e) in
    (generate_uuid e, close_settings s' r')

-- `Board::Board`: the UUID, and the store when the settings are closed.
unfoldable pub start_board : (ℕ → ℕ) → NvRam → Bytes × NvRam
unfolding keep_uuid open_settings get_string
start_board e r =
    let (s, r') = open_settings board_ns true r in keep_uuid e s r' (get_string s r' uuid_key [])

-- `SystemInfo`
abbrev pub flash_size : ℕ
flash_size = 16777216

abbrev pub minimum_free_heap_size : ℕ
minimum_free_heap_size = 8318916

abbrev pub mac_address : Bytes
mac_address = codes "c1:63:f4:3d:b4:ba"

abbrev pub chip_model_name : Bytes
chip_model_name = codes "esp32s3"

-- `Board::GetJson`
unfoldable pub get_json : Bytes
unfolding print_nat
get_json =
    codes "{\"flash_size\": "
    ++ (print_nat flash_size
        ++ (codes ", \"minimum_free_heap_size\": "
            ++ (print_nat minimum_free_heap_size
                ++ (codes ", \"mac_address\": \""
                    ++ (mac_address
                        ++ (codes "\", \"chip_model_name\": \""
                            ++ (chip_model_name
                                ++ codes
                                    "\", \"chip_info\": {\"model\": 9, \"cores\": 2, \"revision\": 2, \"features\": 18}, \"application\": {\"name\": \"xiaozhi\", \"version\": \"0.9.9\", \"compile_time\": \"Jan 22 2025T20:40:23Z\", \"idf_version\": \"v5.3.2-dirty\", \"elf_sha256\": \"22986216df095587c42f8aeb06b239781c68ad8df80321e260556da7fcf5f522\"}, \"partition_table\": [{\"label\": \"nvs\", \"type\": 1, \"subtype\": 2, \"address\": 36864, \"size\": 16384}, {\"label\": \"otadata\", \"type\": 1, \"subtype\": 0, \"address\": 53248, \"size\": 8192}, {\"label\": \"phy_init\", \"type\": 1, \"subtype\": 1, \"address\": 61440, \"size\": 4096}, {\"label\": \"model\", \"type\": 1, \"subtype\": 130, \"address\": 65536, \"size\": 983040}, {\"label\": \"storage\", \"type\": 1, \"subtype\": 130, \"address\": 1048576, \"size\": 1048576}, {\"label\": \"factory\", \"type\": 0, \"subtype\": 0, \"address\": 2097152, \"size\": 4194304}, {\"label\": \"ota_0\", \"type\": 0, \"subtype\": 16, \"address\": 6291456, \"size\": 4194304}, {\"label\": \"ota_1\", \"type\": 0, \"subtype\": 17, \"address\": 10485760, \"size\": 4194304}], \"ota\": {\"label\": \"factory\"}, \"board\": {\"type\": \"bread-compact-wifi\", \"ssid\": \"mzy\", \"rssi\": -58, \"channel\": 6, \"ip\": \"192.168.124.38\", \"mac\": \"cc:ba:97:20:b4:bc\"}}")))))))
