-- ===== src/Examples/Data.antt =====
-- Values that the examples share, and what of them is found by computing.
use xiaozhi_pc.Base.{refl, true, none, [], ◌∷◌, arith}
use xiaozhi_pc.Base.Text.{Bytes, lacks-Lacks, codes}
use xiaozhi_pc.Nvs.{NvRam}
use xiaozhi_pc.Nvs.Line.{trim, trim_left, trim_right, cons_trimmed}
use xiaozhi_pc.Nvs.File.{IsName, IsKey, IsValue}

abbrev pub wifi : Bytes
wifi = codes "wifi"

abbrev pub ssid : Bytes
ssid = codes "ssid"

abbrev pub home : Bytes
home = codes "my home=1.5"

abbrev pub store : NvRam
store = record {
  inited = true;
  nv_caches = (wifi, (ssid, home) ∷ []) ∷ [];
  file = none;
  writable = true;
}

pub wifi-IsName : IsName wifi
unfolding trim trim_right trim_left cons_trimmed
wifi-IsName = record {
  no_dot = lacks-Lacks b'.' wifi refl;
  one_line = lacks-Lacks b'\n' wifi refl;
  trimmed = refl;
  no_comment = λ rest e. ground arith;
}

pub ssid-IsKey : IsKey ssid
unfolding trim trim_right trim_left cons_trimmed
ssid-IsKey = record {
  no_equals = lacks-Lacks b'=' ssid refl;
  one_line = lacks-Lacks b'\n' ssid refl;
  trimmed = refl;
}

pub home-IsValue : IsValue home
unfolding trim trim_right trim_left cons_trimmed
home-IsValue = record { one_line = lacks-Lacks b'\n' home refl; trimmed = refl }
