-- ===== src/Station/Display.antt =====
-- `operation::ShowLEDMsg`: a message goes on its queue unless it is the one shown last.
use my_linux_pbs.Base.{[], ◌∷◌, if◌then◌else◌, Bytes, bytes_eq}
use my_linux_pbs.Station.State.{led_queued, lcd_queued, to_server}
use my_linux_pbs.Station.Op.{Op, continue, ◌then_op◌}
use my_linux_pbs.Station.Env.{Env, Message}

unfoldable pub queue_led : Bytes → Op
queue_led m s =
    if bytes_eq s.process.last_led m
    then continue s []
    else continue (record s { process = record (s.process) { last_led = m } }) (led_queued m ∷ [])

unfoldable pub queue_lcd : Bytes → Op
queue_lcd m s =
    if bytes_eq s.process.last_lcd m
    then continue s []
    else continue (record s { process = record (s.process) { last_lcd = m } }) (lcd_queued m ∷ [])

unfoldable pub show_led_msg : Bytes → Bytes → Op
unfolding queue_led queue_lcd
show_led_msg led lcd = queue_led led then_op queue_lcd lcd

-- A message of `tMsg` or `tExitMsg`.
unfoldable pub show : Env → Message → Op
show env m = show_led_msg (env.led m) (env.lcd m)

-- `operation::SendMsg2Server`, with the command code and the text.
unfoldable pub send_to_server : Bytes → Bytes → Op
send_to_server cmd text s = continue s (to_server cmd text ∷ [])
