-- ===== src/Paging/Fault/Tests.antt =====
-- A write to a page that is not there.
use mal_os.Prelude.{ℕ, ◌<◌, ◌≡◌, arith, some, List, map, u8}
use mal_os.Kernel.State.{Kernel}
use mal_os.Kernel.Tty.Cursor.{cursor}
use mal_os.Kernel.Tty.Text.{Writes}
use mal_os.Kernel.Tty.Sample.{Crtc, ports, ports-IsCrtc, full}
use mal_os.Libc.Itoa.RoundTrip.{IsNotation}
use mal_os.Interrupts.Isr.{Registers}
use mal_os.Paging.Fault.{page_fault}
use mal_os.Paging.Fault.Report.{fault_report, page_fault-Writes}

abbrev write_fault : Registers
write_fault = record { int_no = 14; err_code = 2 }

page_fault-Writes_example :
    (ds : List ℕ) × (k' : Kernel Crtc) × (page_fault ports 0xA0000000 write_fault full ≡ some k')
    × IsNotation 16 8 0xA0000000 ds
    × Writes ports-IsCrtc (map u8 (fault_report 2 ds)) full k'
    × (cursor ports-IsCrtc k' < 2000)
page_fault-Writes_example =
    page_fault-Writes ports-IsCrtc 0xA0000000 write_fault full (omega arith) (omega arith)
