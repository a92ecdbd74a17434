-- ===== src/Proto/MessageType.antt =====
-- proto/message.go: the type bytes of the messages.
use ninep.Prelude.{ℕ}

abbrev pub type_tlerror : ℕ
type_tlerror = 6

abbrev pub type_rlerror : ℕ
type_rlerror = 7

abbrev pub type_tstatfs : ℕ
type_tstatfs = 8

abbrev pub type_rstatfs : ℕ
type_rstatfs = 9

abbrev pub type_tlopen : ℕ
type_tlopen = 12

abbrev pub type_rlopen : ℕ
type_rlopen = 13

abbrev pub type_tlcreate : ℕ
type_tlcreate = 14

abbrev pub type_rlcreate : ℕ
type_rlcreate = 15

abbrev pub type_tsymlink : ℕ
type_tsymlink = 16

abbrev pub type_rsymlink : ℕ
type_rsymlink = 17

abbrev pub type_tmknod : ℕ
type_tmknod = 18

abbrev pub type_rmknod : ℕ
type_rmknod = 19

abbrev pub type_trename : ℕ
type_trename = 20

abbrev pub type_rrename : ℕ
type_rrename = 21

abbrev pub type_treadlink : ℕ
type_treadlink = 22

abbrev pub type_rreadlink : ℕ
type_rreadlink = 23

abbrev pub type_tgetattr : ℕ
type_tgetattr = 24

abbrev pub type_rgetattr : ℕ
type_rgetattr = 25

abbrev pub type_tsetattr : ℕ
type_tsetattr = 26

abbrev pub type_rsetattr : ℕ
type_rsetattr = 27

abbrev pub type_txattrwalk : ℕ
type_txattrwalk = 30

abbrev pub type_rxattrwalk : ℕ
type_rxattrwalk = 31

abbrev pub type_txattrcreate : ℕ
type_txattrcreate = 32

abbrev pub type_rxattrcreate : ℕ
type_rxattrcreate = 33

abbrev pub type_treaddir : ℕ
type_treaddir = 40

abbrev pub type_rreaddir : ℕ
type_rreaddir = 41

abbrev pub type_tfsync : ℕ
type_tfsync = 50

abbrev pub type_rfsync : ℕ
type_rfsync = 51

abbrev pub type_tlock : ℕ
type_tlock = 52

abbrev pub type_rlock : ℕ
type_rlock = 53

abbrev pub type_tgetlock : ℕ
type_tgetlock = 54

abbrev pub type_rgetlock : ℕ
type_rgetlock = 55

abbrev pub type_tlink : ℕ
type_tlink = 70

abbrev pub type_rlink : ℕ
type_rlink = 71

abbrev pub type_tmkdir : ℕ
type_tmkdir = 72

abbrev pub type_rmkdir : ℕ
type_rmkdir = 73

abbrev pub type_trenameat : ℕ
type_trenameat = 74

abbrev pub type_rrenameat : ℕ
type_rrenameat = 75

abbrev pub type_tunlinkat : ℕ
type_tunlinkat = 76

abbrev pub type_runlinkat : ℕ
type_runlinkat = 77

abbrev pub type_tversion : ℕ
type_tversion = 100

abbrev pub type_rversion : ℕ
type_rversion = 101

abbrev pub type_tauth : ℕ
type_tauth = 102

abbrev pub type_rauth : ℕ
type_rauth = 103

abbrev pub type_tattach : ℕ
type_tattach = 104

abbrev pub type_rattach : ℕ
type_rattach = 105

abbrev pub type_terror : ℕ
type_terror = 106

abbrev pub type_rerror : ℕ
type_rerror = 107

abbrev pub type_tflush : ℕ
type_tflush = 108

abbrev pub type_rflush : ℕ
type_rflush = 109

abbrev pub type_twalk : ℕ
type_twalk = 110

abbrev pub type_rwalk : ℕ
type_rwalk = 111

abbrev pub type_topen : ℕ
type_topen = 112

abbrev pub type_ropen : ℕ
type_ropen = 113

abbrev pub type_tcreate : ℕ
type_tcreate = 114

abbrev pub type_rcreate : ℕ
type_rcreate = 115

abbrev pub type_tread : ℕ
type_tread = 116

abbrev pub type_rread : ℕ
type_rread = 117

abbrev pub type_twrite : ℕ
type_twrite = 118

abbrev pub type_rwrite : ℕ
type_rwrite = 119

abbrev pub type_tclunk : ℕ
type_tclunk = 120

abbrev pub type_rclunk : ℕ
type_rclunk = 121

abbrev pub type_tremove : ℕ
type_tremove = 122

abbrev pub type_rremove : ℕ
type_rremove = 123

abbrev pub type_tstat : ℕ
type_tstat = 124

abbrev pub type_rstat : ℕ
type_rstat = 125

abbrev pub type_twstat : ℕ
type_twstat = 126

abbrev pub type_rwstat : ℕ
type_rwstat = 127
