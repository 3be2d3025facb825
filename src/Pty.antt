-- ===== src/Pty.antt =====
-- src/pty.rs: the pseudo-terminal codes.
use thrussh_mod.Base.{ℕ, Option, none, some, ◌==◌, if◌then◌else◌}

pub data Pty : Type 0 where
  tty_op_end vintr vquit verase vkill veof veol veol2 vstart vstop vsusp vdsusp vreprint : Pty
  vwerase vlnext vflush vswtch vstatus vdiscard ignpar parmrk inpck istrip inlcr igncr : Pty
  icrnl iuclc ixon ixany ixoff imaxbel isig icanon xcase echo echoe echok echonl noflsh : Pty
  tostop iexten echoctl echoke pendin opost olcuc onlcr ocrnl onocr onlret cs7 cs8 parenb : Pty
  parodd tty_op_ispeed tty_op_ospeed : Pty

-- The discriminants of the enum.
unfoldable pub to_u8 : Pty → ℕ
to_u8 tty_op_end = 0
to_u8 vintr = 1
to_u8 vquit = 2
to_u8 verase = 3
to_u8 vkill = 4
to_u8 veof = 5
to_u8 veol = 6
to_u8 veol2 = 7
to_u8 vstart = 8
to_u8 vstop = 9
to_u8 vsusp = 10
to_u8 vdsusp = 11
to_u8 vreprint = 12
to_u8 vwerase = 13
to_u8 vlnext = 14
to_u8 vflush = 15
to_u8 vswtch = 16
to_u8 vstatus = 17
to_u8 vdiscard = 18
to_u8 ignpar = 30
to_u8 parmrk = 31
to_u8 inpck = 32
to_u8 istrip = 33
to_u8 inlcr = 34
to_u8 igncr = 35
to_u8 icrnl = 36
to_u8 iuclc = 37
to_u8 ixon = 38
to_u8 ixany = 39
to_u8 ixoff = 40
to_u8 imaxbel = 41
to_u8 isig = 50
to_u8 icanon = 51
to_u8 xcase = 52
to_u8 echo = 53
to_u8 echoe = 54
to_u8 echok = 55
to_u8 echonl = 56
to_u8 noflsh = 57
to_u8 tostop = 58
to_u8 iexten = 59
to_u8 echoctl = 60
to_u8 echoke = 61
to_u8 pendin = 62
to_u8 opost = 70
to_u8 olcuc = 71
to_u8 onlcr = 72
to_u8 ocrnl = 73
to_u8 onocr = 74
to_u8 onlret = 75
to_u8 cs7 = 90
to_u8 cs8 = 91
to_u8 parenb = 92
to_u8 parodd = 93
to_u8 tty_op_ispeed = 128
to_u8 tty_op_ospeed = 129

unfoldable pub from_u8 : ℕ → Option Pty
from_u8 x =
    if x == 0
    then none
    else if x == 1
    then some vintr
    else if x == 2
    then some vquit
    else if x == 3
    then some verase
    else if x == 4
    then some vkill
    else if x == 5
    then some veof
    else if x == 6
    then some veol
    else if x == 7
    then some veol2
    else if x == 8
    then some vstart
    else if x == 9
    then some vstop
    else if x == 10
    then some vsusp
    else if x == 11
    then some vdsusp
    else if x == 12
    then some vreprint
    else if x == 13
    then some vwerase
    else if x == 14
    then some vlnext
    else if x == 15
    then some vflush
    else if x == 16
    then some vswtch
    else if x == 17
    then some vstatus
    else if x == 18
    then some vdiscard
    else if x == 30
    then some ignpar
    else if x == 31
    then some parmrk
    else if x == 32
    then some inpck
    else if x == 33
    then some istrip
    else if x == 34
    then some inlcr
    else if x == 35
    then some igncr
    else if x == 36
    then some icrnl
    else if x == 37
    then some iuclc
    else if x == 38
    then some ixon
    else if x == 39
    then some ixany
    else if x == 40
    then some ixoff
    else if x == 41
    then some imaxbel
    else if x == 50
    then some isig
    else if x == 51
    then some icanon
    else if x == 52
    then some xcase
    else if x == 53
    then some echo
    else if x == 54
    then some echoe
    else if x == 55
    then some echok
    else if x == 56
    then some echonl
    else if x == 57
    then some noflsh
    else if x == 58
    then some tostop
    else if x == 59
    then some iexten
    else if x == 60
    then some echoctl
    else if x == 61
    then some echoke
    else if x == 62
    then some pendin
    else if x == 70
    then some opost
    else if x == 71
    then some olcuc
    else if x == 72
    then some onlcr
    else if x == 73
    then some ocrnl
    else if x == 74
    then some onocr
    else if x == 75
    then some onlret
    else if x == 90
    then some cs7
    else if x == 91
    then some cs8
    else if x == 92
    then some parenb
    else if x == 93
    then some parodd
    else if x == 128
    then some tty_op_ispeed
    else if x == 129
    then some tty_op_ospeed
    else none
