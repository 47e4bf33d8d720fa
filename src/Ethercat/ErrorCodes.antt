-- ===== src/Ethercat/ErrorCodes.antt =====
-- cpp/src/epos_control/include/ethercat/axis_config.hpp: the texts of the drive's error codes.
use Prim.Native.String.{String}
use motor_control.Base.{ℕ, List, [], ◌∷◌, ◌==◌, if◌then◌else◌}

-- The cases of the switch, in order.
unfoldable pub error_texts : List (ℕ × String)
error_texts =
    (0x0000, "No error")
    ∷ (0x1000, "Generic error")
    ∷ (0x2310, "Over Current")
    ∷ (0x2320, "Short Circuit / Earth Leakage")
    ∷ (0x3210, "DC Link Over Voltage")
    ∷ (0x3220, "DC Link Under Voltage")
    ∷ (0x4210, "Over Temperature (Drive)")
    ∷ (0x4380, "Over Temperature (Motor)")
    ∷ (0x5113, "Supply Voltage Too Low")
    ∷ (0x5280, "Supply Voltage Too High")
    ∷ (0x6100, "Internal Software Error")
    ∷ (0x6320, "Software Parameter Error")
    ∷ (0x7121, "Motor Blocked (Stall)")
    ∷ (0x7305, "Incremental Sensor Error")
    ∷ (0x7306, "SSI Sensor Error")
    ∷ (0x8110, "CAN Overrun (Object Lost)")
    ∷ (0x8120, "CAN in Error Passive Mode")
    ∷ (0x8130, "CAN Life Guard / Heartbeat")
    ∷ (0x8150, "CAN PDO COB-ID Collision")
    ∷ (0x8180, "EtherCAT Communication Error")
    ∷ (0x8181, "EtherCAT PDO Error")
    ∷ (0x8182, "EtherCAT RX Queue Overflow (burst)")
    ∷ (0x8210, "PDO Not Processed (Length)")
    ∷ (0x8611, "Following Error")
    ∷ (0x9000, "External Error")
    ∷ (0xFF01, "Hall Sensor Error")
    ∷ (0xFF0B, "System Overloaded")
    ∷ []

unfoldable pub lookup_text : ℕ → List (ℕ × String) → String
lookup_text code [] = "Unknown Error"
lookup_text code ((c, text) ∷ rest) = if code == c then text else lookup_text code rest

unfoldable pub epos_error_str : ℕ → String
epos_error_str code = lookup_text code error_texts
