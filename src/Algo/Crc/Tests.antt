-- ===== src/Algo/Crc/Tests.antt =====
-- hj/algo/crc32.h and hj/algo/crc16.h: runs, and the theorems at them.
use Prim.Native.Nat.{bit_xor}
use high_jump.Common.{ℕ, ◌≡◌, ◌≢◌, refl, some, List, [], ◌∷◌, ◌++◌, arith}
use high_jump.Algo.Crc.Table.{entry}
use high_jump.Algo.Crc.Crc32.{crc32, crc32_loop, crc32_start, crc32_byte}
use high_jump.Algo.Crc.Crc16.{
  crc16_modbus, modbus_loop, modbus_start, modbus_byte, crc16_xmodem, xmodem_loop, xmodem_start,
  xmodem_byte,
}
use high_jump.Algo.Crc.Serial.{serial, crc32_poly, modbus_poly, crc32-serial, crc16_modbus-serial}
use high_jump.Algo.Crc.Resume.{crc32_resume, modbus_residue, modbus_resume_zero}

abbrev digits_text : List ℕ
digits_text = b'1' ∷ b'2' ∷ b'3' ∷ b'4' ∷ b'5' ∷ b'6' ∷ b'7' ∷ b'8' ∷ b'9' ∷ []

-- The check values that the headers name.
check32 : crc32 (some digits_text) 9 0 ≡ 0xcbf4_3926
unfolding crc32 crc32_loop crc32_start crc32_byte entry
check32 = refl

check_modbus : crc16_modbus (some digits_text) 9 0 ≡ 0x4b37
unfolding crc16_modbus modbus_loop modbus_start modbus_byte entry
check_modbus = refl

check_xmodem : crc16_xmodem (some digits_text) 9 0 ≡ 0x31c3
unfolding crc16_xmodem xmodem_loop xmodem_start xmodem_byte entry
check_xmodem = refl

crc32-serial_example :
    crc32 (some digits_text) 9 0
    ≡ bit_xor (serial crc32_poly (bit_xor 0 0xffff_ffff) digits_text) 0xffff_ffff
crc32-serial_example = crc32-serial digits_text 0 (omega arith)

crc16_modbus-serial_example : crc16_modbus (some digits_text) 9 7 ≡ serial modbus_poly 7 digits_text
crc16_modbus-serial_example = crc16_modbus-serial digits_text 7 (omega arith)

-- A frame with its check sum, and a byte after it.
abbrev frame : List ℕ
frame = digits_text ++ (0x37 ∷ 0x4b ∷ [])

frame_residue : crc16_modbus (some frame) 11 0 ≡ 0
unfolding crc16_modbus modbus_loop modbus_byte entry modbus_start
frame_residue = modbus_residue digits_text 0 (omega arith)

modbus_resume_zero_example :
    crc16_modbus (some (b'x' ∷ [])) 1 (crc16_modbus (some frame) 11 0)
    ≢ crc16_modbus (some (frame ++ (b'x' ∷ []))) 12 0
unfolding crc16_modbus modbus_loop modbus_byte entry modbus_start
modbus_resume_zero_example =
    modbus_resume_zero frame (b'x' ∷ []) 0 (omega arith, tt)
      (modbus_residue digits_text 0 (omega arith))

crc32_resume_example :
    crc32 (some (b'x' ∷ [])) 1 (crc32 (some digits_text) 9 0)
    ≡ crc32 (some (digits_text ++ (b'x' ∷ []))) 10 0
crc32_resume_example = crc32_resume digits_text (b'x' ∷ []) 0
