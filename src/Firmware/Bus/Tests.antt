-- ===== src/Firmware/Bus/Tests.antt =====
-- Requests on a bus whose device acknowledges everything and is quick.
use smbusb.Prelude.{refl, true, false, [], ◌∷◌, List, ℕ, replicate, arith}
use smbusb.Firmware.State.{Fw, Request}
use smbusb.Firmware.Keeps.{Post}
use smbusb.Firmware.Timeout.{IsValid}
use smbusb.Firmware.Commands.Transfers.{send_byte, read_byte, read_word, write_byte, write_word}
use smbusb.Firmware.Bus.{write_transaction, Carried, Outcome}
use smbusb.Firmware.Bus.Writes.{write_byte-Carried, write_word-Carried, SentByte, send_byte-Carried}
use smbusb.Firmware.Bus.Blocks.{block_message}
use smbusb.Firmware.Bus.LongBlocks.{write_all, write_all-Carried}
use smbusb.Firmware.Bus.Bench.{bench, bench-IsRunning, bench-IsPrompt}
use smbusb.Firmware.Bus.Reads.{Answered, read_byte-Answered}
use smbusb.Firmware.Commands.ReadBlock.{read_block}
use smbusb.Firmware.Bus.BlockRequests.{BlockOutcome, read_block-Answered}
use smbusb.Firmware.Bus.WordReads.{read_word-Answered}

abbrev idle : Fw
idle = record {
  pec_enabled = true;
  pec_failed = false;
  temp = replicate 192 9;
  tempptr = 0;
  templen = 0;
  mrq_pec = 0;
  rcv_pec = 0;
  count = 0;
  ep0buf = replicate 64 0;
  ep0bc = 0;
  time = 0;
  bus = [];
}

idle-IsValid : IsValid idle
idle-IsValid = record {
  ep0_size = refl;
  temp_size = refl;
  ptr_in = omega arith;
  len_in = omega arith;
  count_in = omega arith;
}

abbrev word : Request
word = record { value = 0x16; index = 0x44; payload = 0x34 ∷ 0x12 ∷ [] }

abbrev one_byte : Request
one_byte = record { value = 0x16; index = 0x44; payload = 0x34 ∷ [] }

write_byte-Carried_example :
    Post
      (Outcome (Carried [] (write_transaction true (0x16 ∷ 0x44 ∷ 0x34 ∷ []))))
      (λ _. ⊥)
      (write_byte bench 12 one_byte idle)
write_byte-Carried_example =
    write_byte-Carried bench 12 bench-IsRunning one_byte idle idle-IsValid 0x34 [] refl

write_word-Carried_example :
    Post
      (Outcome (Carried [] (write_transaction true (0x16 ∷ 0x44 ∷ 0x34 ∷ 0x12 ∷ []))))
      (λ _. ⊥)
      (write_word bench 12 word idle)
write_word-Carried_example =
    write_word-Carried bench 12 bench-IsRunning word idle idle-IsValid 0x34 0x12 [] refl

send_byte-Carried_example : Post (SentByte word idle) (λ _. ⊥) (send_byte bench 12 word idle)
send_byte-Carried_example = send_byte-Carried bench 12 bench-IsRunning word idle idle-IsValid

abbrev letters : List ℕ
letters = replicate 140 0x61

write_all-Carried_example :
    Post
      (Outcome (Carried [] (write_transaction true (block_message word 140 letters))))
      (λ _. ⊥)
      (write_all bench 12 word letters idle)
write_all-Carried_example =
    write_all-Carried bench 12 bench-IsRunning (λ n. refl) word idle letters idle-IsValid refl
      (ground arith) (omega arith)

read_byte-Answered_example :
    Post (Outcome (Answered idle word 1)) (λ _. ⊥) (read_byte bench 12 word idle)
read_byte-Answered_example =
    read_byte-Answered bench 12 bench-IsRunning bench-IsPrompt word idle idle-IsValid

read_word-Answered_example :
    Post (Outcome (Answered idle word 2)) (λ _. ⊥) (read_word bench 12 word idle)
read_word-Answered_example =
    read_word-Answered bench 12 bench-IsRunning bench-IsPrompt word idle idle-IsValid

read_block-Answered_example : Post (BlockOutcome idle word) (λ _. ⊥) (read_block bench 12 word idle)
read_block-Answered_example =
    read_block-Answered bench 12 bench-IsRunning bench-IsPrompt word idle-IsValid refl
