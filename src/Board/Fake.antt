-- ===== src/Board/Fake.antt =====
-- porting/impl/fake_board.cc: what the board of the program makes. There is no web socket and no
-- battery, and `StartNetwork` and `SetPowerSaveMode` do nothing.
use xiaozhi_pc.Base.{ℕ, Bool, false, none, [], List}
use xiaozhi_pc.Base.Text.{Bytes, codes}
use xiaozhi_pc.Codec.{Codec, Opened, open_codec}
use xiaozhi_pc.Display.{Samples}
use xiaozhi_pc.HttpClient.{HttpClient}
use xiaozhi_pc.PahoMqtt as Paho
use xiaozhi_pc.PahoMqtt.{PahoMqtt}
use xiaozhi_pc.UdpClient as Udp

abbrev pub sample_rate : ℕ
sample_rate = 16000

abbrev pub board_type : Bytes
board_type = codes "emulator"

abbrev pub board_json : Bytes
board_json = []

abbrev pub create_http : HttpClient
create_http = record { headers = []; result = none; timeout_ms = 0 }

abbrev pub create_mqtt : PahoMqtt
create_mqtt = Paho.created

abbrev pub create_udp : Udp.Client
create_udp = Udp.initial

-- `GetAudioCodec`, by what SDL answers.
unfoldable pub get_audio_codec : Opened → List (ℕ × Bytes) → Samples → Codec
unfolding open_codec
get_audio_codec o devices samples = open_codec o none devices sample_rate sample_rate samples

-- `Board::GetBatteryLevel`
abbrev pub get_battery_level : Bool
get_battery_level = false
