-- ===== src/Tables/Double3.antt =====
-- The third 64 points of `DOUBLE_SCALAR_TABLE` in crypto/src/riscv_tables.c, 12 words a point.
use zkproof_demo.Base.{ℕ, List, [], ◌∷◌}

abbrev pub double_scalar_words_3 : List ℕ
double_scalar_words_3 =
    0x6f006249351471f7 ∷ 0x3204eb91cfe9ed6c ∷ 0xe09af1c83c13afa2 ∷ 0x6d70ed88d5de535b
    ∷ 0x2078873d1a2faa1f ∷ 0x5c73bedb8d96f3da ∷ 0x41bbb407a3a1ce1d ∷ 0x7a40ec2fb54eea85
    ∷ 0xd6d569cb9dd722e3 ∷ 0x10acf67805927b6a ∷ 0x27c61d818cc0ea05 ∷ 0x57b175c9f59904e2
    ∷ 0x4f7b40bc92b5a60d ∷ 0x51431f647b46b89a ∷ 0xcd84dd55cc2a720e ∷ 0x6b36059700809a1c
    ∷ 0x78e3e5dd060e9a0f ∷ 0x630c0c1a146c77d4 ∷ 0xc9925b0dea8fee2b ∷ 0x4728f0604b16a06d
    ∷ 0xb4601050635b2318 ∷ 0x2484f7281864709b ∷ 0xbe2ed2a2523211db ∷ 0x6425d4ff23dd3a5b
    ∷ 0xf0868c09017aef5e ∷ 0x2733d1e1adc6d5ee ∷ 0xa631db49f17f87e9 ∷ 0x36d753ced54d5727
    ∷ 0x451d17fb6c4af537 ∷ 0x1dcc4d611dd55b04 ∷ 0x0bb8de0c8d3e549b ∷ 0x2fb2ca1271592c3d
    ∷ 0xd877914ffbc31ced ∷ 0x190809a196504d10 ∷ 0x44bdd65a970277e3 ∷ 0x13195c678b4b01fa
    ∷ 0xe69a41a54f84d41f ∷ 0x61c7c870565e4508 ∷ 0xeca2d2fc6f0e1c9b ∷ 0x7f065480e257152a
    ∷ 0xfaaa9f7c3a8873b0 ∷ 0x43fcdb8db58a324a ∷ 0x969a79026e9da7a2 ∷ 0x4eab135af328b9d9
    ∷ 0xb38aaafe87f85f7c ∷ 0x69eba4fe1a6b6f32 ∷ 0x5607f6c6b4d27cbc ∷ 0x273072bea774f9e7
    ∷ 0x3c1149e3c8d51db0 ∷ 0x161f8cd433c28bfa ∷ 0x765a61f218fe70da ∷ 0x442b5d405f2036bb
    ∷ 0x96f790271c564cc1 ∷ 0x3d5dbb33505cc956 ∷ 0x621a38b446af395c ∷ 0x2da978b45bb70ce6
    ∷ 0x755aca711da49388 ∷ 0x46f2e33e55e86df8 ∷ 0xfc5b454d5cb7be24 ∷ 0x67df47d68d8f6d12
    ∷ 0x7a1e224893898aad ∷ 0x0400219c89c2d13e ∷ 0x6c969e4d63d460d9 ∷ 0x4df64d5df8b60ad2
    ∷ 0x1feed05a45ff89ed ∷ 0x290c4b59e684b4ef ∷ 0x97ffbc3df096adb6 ∷ 0x4ac6037e76561c96
    ∷ 0x1bc40299115e51b1 ∷ 0x7169e0a1d96aa1be ∷ 0x43f55f8b6bac596c ∷ 0x1cc6a0603081a178
    ∷ 0x8e1d2db69bc925d0 ∷ 0x6ffb86eed51d2931 ∷ 0x3ad1eb242e0af1b5 ∷ 0x338198152fcd6d7c
    ∷ 0xc1f381496df13943 ∷ 0x05d9242fe1c60b02 ∷ 0x39617510de7eec81 ∷ 0x24d8ba5ac76b12b8
    ∷ 0x280eb2db9e548483 ∷ 0x6c51317b3a8a93f0 ∷ 0xb2a9f90939bd1235 ∷ 0x2da9de86c39f9aa6
    ∷ 0x7f54917103127b97 ∷ 0x7be2be5ad3276169 ∷ 0xc969d703d31e9da7 ∷ 0x0500df3bbb1f8a4e
    ∷ 0xea05c77685795917 ∷ 0x049575a992d09345 ∷ 0xd567f8de2daabe35 ∷ 0x383fad35a8e035cb
    ∷ 0xb9353eb2bbd43d56 ∷ 0x52b3953221860c5a ∷ 0xf9e4bcd46dbec03e ∷ 0x4b0db0b4a7b3279c
    ∷ 0x8cc5f6b6e1ff80c0 ∷ 0x1bd2ce464b552215 ∷ 0xd008eb25b39c4236 ∷ 0x3b4ce5bb2f42a9fc
    ∷ 0xe1f249681d153d9d ∷ 0x3e022cb14bc4c5b9 ∷ 0x8a11d021c8ed5a53 ∷ 0x560d3fb258bec495
    ∷ 0xf4405852705a6012 ∷ 0x5c8bccd2b1b3efd3 ∷ 0xd93c0f63ba7ce0c3 ∷ 0x337798cb3e93dbba
    ∷ 0x7a9f68cf800c8e88 ∷ 0x579afe689f3ebcce ∷ 0x7dd41d6cdfbdb4a9 ∷ 0x3802410c4e1b274e
    ∷ 0x64241d770cf0db02 ∷ 0x2f7c8133c74bde23 ∷ 0xf3c3fd835ed1952e ∷ 0x741b1d88a3cee37b
    ∷ 0x74e1ae644683c68f ∷ 0x0c80dd9e0f7a91e1 ∷ 0x3984d741f3e47c24 ∷ 0x4b3eb97b6a39d252
    ∷ 0x32e9b9410da9a195 ∷ 0x11d09fdc04ec3b41 ∷ 0xf92fd5e53cddea30 ∷ 0x296e095589e0ce05
    ∷ 0x4e3200c3a283b696 ∷ 0x7e33fbba44ecb32c ∷ 0xed3c039790ad0033 ∷ 0x5c8ebb260b5ec084
    ∷ 0xa667455bb79d2e9d ∷ 0x12fbec9d4f5bb155 ∷ 0x3aa5f6bb4d0d8d49 ∷ 0x0ca652ed7065d80b
    ∷ 0xb7938753d51c6f83 ∷ 0x41644ac1a602f9f2 ∷ 0x84223d4d63c38f7d ∷ 0x71057b4b8b931282
    ∷ 0xd39fa015165f47b5 ∷ 0x7536c8a19c33c201 ∷ 0xbe713ca4166c2dad ∷ 0x456c98c2b4198511
    ∷ 0x4793f25e1cb44658 ∷ 0x1d002f1cfe1a1ba7 ∷ 0x9f9ed6e1e1a27957 ∷ 0x095dece028426bdb
    ∷ 0xe57d3412fc1001d6 ∷ 0x481c63a0d9b25e99 ∷ 0xc756b6ba0dc02aa5 ∷ 0x24af047d79ed4683
    ∷ 0xe37ac10133b68275 ∷ 0x418b45e570802012 ∷ 0x87578def0c3900ce ∷ 0x7c5661923b8c9740
    ∷ 0x5f4ab0a6fdda7366 ∷ 0x0ac6100825e4eb3c ∷ 0x308528e42c9e4d32 ∷ 0x436e5979933ddde8
    ∷ 0x0cd6ebe123352222 ∷ 0x63d1768a46f33dc7 ∷ 0x96cc55dff38c9273 ∷ 0x474438da7140411d
    ∷ 0xa184b89b81cf6402 ∷ 0x6bf820a3aa675050 ∷ 0x3bd4720417391f0e ∷ 0x3f2b8f859a8e0cba
    ∷ 0xed952561b125da29 ∷ 0x07eb1ac74165097d ∷ 0xc3f70d0c7db0a9fd ∷ 0x5ab896a489294a6c
    ∷ 0xd4b608975c20018d ∷ 0x6243b039f25d0456 ∷ 0xf766e98fc24c7464 ∷ 0x20035c09d2291e42
    ∷ 0xcc0e5b5eeb462524 ∷ 0x24bcba5505f90657 ∷ 0x43a98d98e4fa9bf6 ∷ 0x3b621ec4188264d4
    ∷ 0x633472fe235c812c ∷ 0x31a20844a3316d23 ∷ 0x47b80db7d7f5d0bd ∷ 0x22d482f5663780f9
    ∷ 0x4df227dc52142020 ∷ 0x25076d0624bf137e ∷ 0xcb4a6ee30a657645 ∷ 0x0ce469dbb5ada433
    ∷ 0xfdb06251f65b9c5b ∷ 0x44f82274a8e8f538 ∷ 0x98fa4c81cdec4b97 ∷ 0x0ccd61d1abb61d0d
    ∷ 0xb9dc371344c5ab54 ∷ 0x35dcd9ccf8e5f919 ∷ 0x67fc81f369ba5722 ∷ 0x121b5aa1af6024da
    ∷ 0xe0b1b16b0fb1f1fa ∷ 0x4dc688d6d3b1805b ∷ 0x05c187cf10e40104 ∷ 0x71af39c743daacd9
    ∷ 0xe691e97f82acf4b3 ∷ 0x0c46305b9243bf5b ∷ 0xb063af137fde616b ∷ 0x4e26e72a1de067f6
    ∷ 0x61fe66d01a221004 ∷ 0x172fe9240cea50b1 ∷ 0x4ff50d37b2effefc ∷ 0x06be02ab0b89aa5d
    ∷ 0xdd4aab96717af213 ∷ 0x32322555b58a7ffc ∷ 0x7812aa965889326d ∷ 0x1bd608f60d6457a4
    ∷ 0x2c7b6b44e999e141 ∷ 0x113a86a87856a8a8 ∷ 0xd95469fc33814855 ∷ 0x4a18dc36f6bfd586
    ∷ 0x0706b60bdb854fd3 ∷ 0x4dc356685650fa90 ∷ 0x24ef7cfce41f8dcc ∷ 0x19049c3e632deae8
    ∷ 0x5c9a4e28b7138a89 ∷ 0x0f0b7dbc1e5087e2 ∷ 0xebf49cdc66a362d2 ∷ 0x19e4b815e6576c85
    ∷ 0x1896051ee3b6063d ∷ 0x09ecc741852a68e4 ∷ 0x4009034def986795 ∷ 0x36b440ff39b4b5e8
    ∷ 0x9bc2647ee28af1cb ∷ 0x62613c9dd152b3a8 ∷ 0xc2018ae5dfae5f2d ∷ 0x29ce5ef30009c855
    ∷ 0x0b653558b21d2b1c ∷ 0x45e2c505d1f74936 ∷ 0x48304373240553d3 ∷ 0x0528569885a82310
    ∷ 0xa90d402e33924181 ∷ 0x5e610edc23cb9555 ∷ 0x28890ae7e007d28a ∷ 0x7e5132b6b1ebae37
    ∷ 0x0d5252eb7c94cb1b ∷ 0x308ddaea1fdbb672 ∷ 0x99fac0b431730534 ∷ 0x77d54ed63b9325b9
    ∷ 0x4d647bcb76c6ec3f ∷ 0x0e968b22ec2cad86 ∷ 0x4b22b5ec30b08a35 ∷ 0x3b31df3b52326b5c
    ∷ 0xbe84f638dac3105d ∷ 0x7db085f133ecbed3 ∷ 0x7a8b694596f2cf2a ∷ 0x67b2e6c15d16e0aa
    ∷ 0x4808b20bf173011d ∷ 0x25d5fbbfbe66f864 ∷ 0xf67f3f3cd9743987 ∷ 0x654250e89617ddf3
    ∷ 0xf5a1a7e0ba0a88c0 ∷ 0x3616c781799ab50a ∷ 0x2669c27a2d256902 ∷ 0x3a8ec380e12fd7dd
    ∷ 0xa25361f44a418e30 ∷ 0x2942f3001d233645 ∷ 0x60f1d3b7535a4133 ∷ 0x14deaaa12e5c7bdf
    ∷ 0x0089fbece10c8d6f ∷ 0x4bf7c313757c803d ∷ 0x65aa30bfbb70567d ∷ 0x4fed47af409a3fb3
    ∷ 0x07557dd875d3daf5 ∷ 0x36c49c2380e3c9bb ∷ 0xa21f643d329ae02f ∷ 0x6cf6f7474338bcb0
    ∷ 0xb5df78136a0f3012 ∷ 0x031fb2df2e00e9d4 ∷ 0x4d86fccbe75e79cd ∷ 0x23f890e082d03b7d
    ∷ 0x5716a1ffb50a8262 ∷ 0x0199b50aa6cf3302 ∷ 0x6a1be351f86090d5 ∷ 0x36095efc13349364
    ∷ 0xffe752be8ce46920 ∷ 0x65047a340b652f65 ∷ 0x320ee55fd03156a6 ∷ 0x5af6aa45278409f6
    ∷ 0xa6caf283b1cf3850 ∷ 0x4e3a988f61072f96 ∷ 0x750f67926b18f680 ∷ 0x09fc3f2927d21a4a
    ∷ 0x914893c2f2ce1169 ∷ 0x4d15b367121b3e75 ∷ 0x6cb12559723774f2 ∷ 0x3ee5b8c2a70e054a
    ∷ 0x7dd9b3518d84d2d7 ∷ 0x147d5a5a53f57a58 ∷ 0xe1bd0904ad842a05 ∷ 0x3a0f3b029c9a5845
    ∷ 0x7153c03261410074 ∷ 0x4e203d6737058c17 ∷ 0xebecf5cb79f28af9 ∷ 0x574b889870c279f4
    ∷ 0x326317b005f444a4 ∷ 0x7480da44b34f4b1e ∷ 0x7c5f21cdc46275b2 ∷ 0x210494b9ee24e4e0
    ∷ 0x3cbf6ca1f4aa4ead ∷ 0x6bf3872ccbfed940 ∷ 0x19e8a84673a566ca ∷ 0x61a80e16990401a2
    ∷ 0xea2e029e7f9b3824 ∷ 0x5762298465f0ebd3 ∷ 0xf60e36d4969f9af0 ∷ 0x00b826180531c799
    ∷ 0x17120ec95cf3c61d ∷ 0x47196cd6de85c7d0 ∷ 0xb0d47cff46a5cba3 ∷ 0x29271400d7ede26b
    ∷ 0x835908353516b894 ∷ 0x4bc57f8c1eedec8e ∷ 0x2ec5deede5c0db5f ∷ 0x7b9fc48ac4a689fb
    ∷ 0xf82ce6de88fc10e5 ∷ 0x6c5d84a70e03a3d6 ∷ 0x88a211fc4ea531f9 ∷ 0x7d5583e5918aa03e
    ∷ 0xbdf2d70766fb8f39 ∷ 0x5926497e734ab18a ∷ 0xd6a9872b800cacb4 ∷ 0x757c1cd521fd22d6
    ∷ 0x22d50b0c13ec4bc0 ∷ 0x288a77d34a15e99a ∷ 0x95c8e78fced3d4eb ∷ 0x45ece109c15be169
    ∷ 0x878ef262d0132128 ∷ 0x48110e9fd98939d6 ∷ 0xe3fc5425d2e7741e ∷ 0x050ca6e71f599c65
    ∷ 0xe02f97605d9fe375 ∷ 0x2af48b9bfee410e4 ∷ 0xfd34a1c107229a54 ∷ 0x43dc6f0cdcbd41fe
    ∷ 0x15b4eb7d65cc562b ∷ 0x369a7b0dd3e91248 ∷ 0x2b087611edd32810 ∷ 0x116b234ddce09d7f
    ∷ 0xcdb03cae8e90d2b0 ∷ 0x4017d51587566038 ∷ 0x081793739242b600 ∷ 0x5086e8e633cd52a1
    ∷ 0xf5ddaee155cb8087 ∷ 0x773311b60d59a7e9 ∷ 0x36e5aa0acadf2068 ∷ 0x7126a4281b192882
    ∷ 0x54a10df54f7ecef8 ∷ 0x3cd7d2fbb6e33f67 ∷ 0xac31eb6c3e740c25 ∷ 0x517db54840feb2de
    ∷ 0xf17cb269b3ce27a2 ∷ 0x04a8fecd1dcc99e7 ∷ 0xfc887c1f2f85a2da ∷ 0x280da7425bb55b01
    ∷ 0xa1af72f5256a5a53 ∷ 0x71da839fc459f465 ∷ 0xc203fe7ba6587f71 ∷ 0x08a4201f77a4f335
    ∷ 0x6cb9ea5683014d96 ∷ 0x5da17076b6b51ae2 ∷ 0xb55ac168c3e3997f ∷ 0x41b9a32373d78f7a
    ∷ 0x96f58033b8600a50 ∷ 0x6ebfba3ec9d956cc ∷ 0x0ff8883707d66d0c ∷ 0x2f562b035445226f
    ∷ 0x2388fc015bd368c7 ∷ 0x2b7d802ce27f627e ∷ 0x301f0369c24083a6 ∷ 0x77e139f6da8d5aaa
    ∷ 0x9f78574697fce43c ∷ 0x02726c94565421b6 ∷ 0x1ad6007338e26585 ∷ 0x6134cc5eb35c02ff
    ∷ 0x77ae739c9cdcd1e1 ∷ 0x04e96543233c7a13 ∷ 0x97d3926dcded2e10 ∷ 0x6bcdff7e14cebb73
    ∷ 0x9c46ae2b32489774 ∷ 0x04a97b9a0473af8d ∷ 0xb0350bd910d9784e ∷ 0x448212d3e2164ad7
    ∷ 0xf3464e0351f5e995 ∷ 0x68ab4d24b3ade8d6 ∷ 0x86854d534002af20 ∷ 0x613f7ffe5de92aeb
    ∷ 0xb385b4f4608a370a ∷ 0x220dccecbc6f2688 ∷ 0xc31ec5384abd3680 ∷ 0x25a82841a2000fd8
    ∷ 0xd19e422504694236 ∷ 0x0bc1124d541781f5 ∷ 0x0808651edcd99176 ∷ 0x41b81f223d429c76
    ∷ 0x1a6dcb2662cc80c6 ∷ 0x0b101fb0ef0d1f74 ∷ 0x6f02aed8f8327119 ∷ 0x5b4c5176ccc4a340
    ∷ 0x8fcefd200d6ee8ed ∷ 0x0548127287f44749 ∷ 0xe1efeca1fadd1341 ∷ 0x0e74bc189dc9016c
    ∷ 0xe90470353f46cb12 ∷ 0x69513d3455bc890c ∷ 0x9503686f1f2497d1 ∷ 0x280a0bb7733f1086
    ∷ 0x14e5f99930a91dea ∷ 0x7840ad84b03c3878 ∷ 0x46e32c654fdbceb1 ∷ 0x7e88d2822bb2cecf
    ∷ 0x4d78a8aed7f8661d ∷ 0x70eb17416ef40180 ∷ 0x97b6f1733c474a10 ∷ 0x3d0d27fc4c7084ef
    ∷ 0x730f60f6a1ee0d71 ∷ 0x7bf6e3885d3d9302 ∷ 0xa1e8af33742f1611 ∷ 0x73b798ec129822ed
    ∷ 0x0f669bb094642a70 ∷ 0x142927de789fc4a4 ∷ 0x0db18e01fa98cbd7 ∷ 0x6ae4d37674be1451
    ∷ 0x7175e98f178b4b74 ∷ 0x40534e319bc52c6c ∷ 0xb7211d252c4db879 ∷ 0x1a7651f8f3ed1aae
    ∷ 0x9c9a43932d50cc97 ∷ 0x630b232b7201c359 ∷ 0x327d77575f5b3839 ∷ 0x5f0e19e78431864a
    ∷ 0xbfbb00b6530a3bb6 ∷ 0x19ba9d60d97f7857 ∷ 0x759779de744bd764 ∷ 0x5facbe63177791e1
    ∷ 0xc74ea511c56a3b61 ∷ 0x1d8909e84083c31d ∷ 0xcd20094b507af492 ∷ 0x2ef1b9c07c92ab37
    ∷ 0x8430ed9ef8494fc9 ∷ 0x3f9170e6df5b1fa1 ∷ 0x1fb8dbc837175d73 ∷ 0x65b961b58008d022
    ∷ 0x7e1afb6816864b6f ∷ 0x54c4b92c534871e9 ∷ 0xc0a1dcd60d61ef84 ∷ 0x4390f0e992c41298
    ∷ 0x1e54e2c8b7c27348 ∷ 0x7a987e01a2ec308c ∷ 0xee42fbd90c4a89fc ∷ 0x1ed8c77f8d7c609d
    ∷ 0x569dedaca99a3346 ∷ 0x0eb471e609fef4ed ∷ 0xc915522a3b9fd03c ∷ 0x726453b246746bfb
    ∷ 0x4ed3cae53dc5fa4b ∷ 0x1bf1e4b34b9feef6 ∷ 0x0850df9f0401fac3 ∷ 0x0a58d33cb2422e2f
    ∷ 0x3d197f9603ecfc29 ∷ 0x45e46edba1cc432e ∷ 0x96c0c93310d9bcaf ∷ 0x18de3a458be2c33f
    ∷ 0xc9e65e5bcc12a49a ∷ 0x71a5345f0239b187 ∷ 0x53b3b2f01c5710b3 ∷ 0x438350f57ce2ec4a
    ∷ 0xdbbd368a760391db ∷ 0x4033638dfec29fe2 ∷ 0x297ad75ed73117fd ∷ 0x269c08d54b106e8c
    ∷ 0xa4e3e4fd238b4218 ∷ 0x1f48a1cb09208aaa ∷ 0x9575153115cf5fa7 ∷ 0x59feeff0876fb74a
    ∷ 0xfdedb4af6f368710 ∷ 0x79be1fe79fa674d4 ∷ 0x689d6bbb4c707c39 ∷ 0x394a451499057bb1
    ∷ 0x5887d4fb21fc43b3 ∷ 0x37628dfc4b5c23bf ∷ 0xc66b76944b34bd13 ∷ 0x6e97f0a8a45bcb36
    ∷ 0x3ac6b10139edbbdd ∷ 0x313f4846b6745833 ∷ 0xf8758d9777cd9037 ∷ 0x02fdc98f02692537
    ∷ 0x9e79f381fff833a5 ∷ 0x25ac5d68c49b105c ∷ 0x1e9f48a076d8c9ee ∷ 0x788c85c9fe9543b3
    ∷ 0x776ea51db3b3b778 ∷ 0x0007c44055b64db2 ∷ 0x3c392c2a82fddd25 ∷ 0x65000203be8ee976
    ∷ 0xea119666ab7c50ab ∷ 0x528b2700e8f82d39 ∷ 0xc4aaf797118b8282 ∷ 0x55e5a7d5382e0d3a
    ∷ 0x15a80b22e89f1039 ∷ 0x199f68594b1247a0 ∷ 0x8d5630750d622435 ∷ 0x2687f48cc6def5b2
    ∷ 0xa16b0c0259eafaee ∷ 0x7aeb10834e93595a ∷ 0xe31bcf34ce679d9f ∷ 0x4e2c19829eee3c87
    ∷ 0xa46869cb8ca35c9d ∷ 0x3cd35313c08504eb ∷ 0xa088eca66e98389c ∷ 0x44c562f0f7262740
    ∷ 0xd3eb8a28f447523a ∷ 0x43a0e059bfe37576 ∷ 0x0312c5d6d0f2e0ad ∷ 0x5f30aaf0d1614c61
    ∷ 0x6f09a7a6e182b0aa ∷ 0x575db3d21a82296b ∷ 0x6599bb5eee7925e6 ∷ 0x093f89458dcc2fe3
    ∷ 0x70c4af785151fc84 ∷ 0x1230c0c519de5480 ∷ 0x0e66f8f93075a4f6 ∷ 0x5de4a122633a5c6d
    ∷ 0xdb99cf83f9ece1b6 ∷ 0x1c3acd4a13ded617 ∷ 0x4dfe69e68f59c447 ∷ 0x482ba1f7715a3c16
    ∷ 0xefeed2a7c81ea8fd ∷ 0x4e089eeb713a572f ∷ 0x78bc74acfbdf322b ∷ 0x4b4951ce8eb86fbf
    ∷ 0x0eafb6b46ac6714d ∷ 0x72913ed109f7d404 ∷ 0xb498bf6fcde9e3a2 ∷ 0x3c08a283ef5ded62
    ∷ 0x9af09f593a48b346 ∷ 0x7ed52441d00d4980 ∷ 0xa78e843ee5df44ac ∷ 0x25db12d420a86151
    ∷ 0xec840e7e89d049e0 ∷ 0x5a34cbe928bf96cc ∷ 0xd875dc5525da882c ∷ 0x2af4442fc256827d
    ∷ 0x089fb428c2ef5a5d ∷ 0x0b573ace080a3d9c ∷ 0x6f57282554c240da ∷ 0x425ceda6707b6bc9
    ∷ 0x94b5a8c3dde824fb ∷ 0x264f6f6a445b5da9 ∷ 0xadf292191c5c1eb7 ∷ 0x5e302e82fa4e5533
    ∷ 0xf51712fc44237f35 ∷ 0x2b0af62c42e56e66 ∷ 0x10392cb4d9c71b75 ∷ 0x4d7e08fe8457a95b
    ∷ 0x210b9eceb04534bf ∷ 0x73329d1c7d88e1e5 ∷ 0x667a43fdb4ba79e9 ∷ 0x3435ec04276ede87
    ∷ 0x38b8540a1a78b098 ∷ 0x4f6c266e6793bb78 ∷ 0x447ea35172754041 ∷ 0x109d7b742d8c3dac
    ∷ 0xe3ccab45d2a4f6f7 ∷ 0x59040bb73f3bbd2a ∷ 0x730b39d65645bab5 ∷ 0x5c61aed2f83382aa
    ∷ 0xa992143de3cf83e1 ∷ 0x13455cb889b700f9 ∷ 0x54648228b310e2f7 ∷ 0x5b837752ee0f733a
    ∷ 0x3923a6c0e5ea0dd9 ∷ 0x5ebebd01fc9ca9a2 ∷ 0xa34c205b8fd94258 ∷ 0x7d1a10029a0b6cd5
    ∷ 0x6c83c02241a46527 ∷ 0x4127c85d6be1fc62 ∷ 0x26f86ff5ca7240b6 ∷ 0x2167391e7dd95cd9
    ∷ 0x79227506ac78caef ∷ 0x1a2cf919b8832a0f ∷ 0x07745266405cf574 ∷ 0x38095a07f5713ae1
    ∷ 0xe5eeab985ca3e7e7 ∷ 0x6a5dd9eeb734d639 ∷ 0x991027ebe44a4822 ∷ 0x311085fb4de9c1f0
    ∷ 0x33f361e21066c3b5 ∷ 0x550091d2dfc8688f ∷ 0x376345c5532bac13 ∷ 0x0aa0898f990931b5
    ∷ 0xea2f3346e5d3226e ∷ 0x208790ab78776afc ∷ 0xac7c2ae63433850c ∷ 0x3c5c373ada10ef52
    ∷ 0x96c1b4003f4cde6a ∷ 0x4546a9c475c09781 ∷ 0x6c961fd3e8536294 ∷ 0x43f36e63fc0d5066
    ∷ 0x296601d8c42167f4 ∷ 0x241c1fc38565471b ∷ 0xdb00a27e11ce9617 ∷ 0x60381181b7e7e4ee
    ∷ 0xc1076b7635ac4d52 ∷ 0x0166010ffb8dda38 ∷ 0x5238f69becc43e0b ∷ 0x63303a2015708b17
    ∷ 0xe8badb2e5bb22591 ∷ 0x3a10a4e218b6131d ∷ 0x236ab01aabf1a7b3 ∷ 0x1ce8a51a68a4126f
    ∷ 0x59e775e2a2a87928 ∷ 0x770b48eb4b738301 ∷ 0x0b43c2be176bf79b ∷ 0x1957850fb6424660
    ∷ 0x44455ee1ecb0ab2a ∷ 0x620ceaa116eef4f0 ∷ 0x0198f62cb6183f6b ∷ 0x3274f78eaf2d55db
    ∷ 0xd2ba4e460cf7ed5f ∷ 0x19cfc17bc0b66f43 ∷ 0xcbae6f45b1942722 ∷ 0x5d93e44739147b58
    ∷ 0xd07180b9d28fc597 ∷ 0x35372b21b2ea5a46 ∷ 0xed2673477f083464 ∷ 0x7a9ebeeecc57e6c2
    ∷ 0xb51d991a81a6b314 ∷ 0x35e7d90f4ed6de58 ∷ 0x45f21e209510dd05 ∷ 0x446ffd2715c8d380
    ∷ 0xe69b5c7a9b6d3e76 ∷ 0x1379e79fb96912e6 ∷ 0xc161c848bd508738 ∷ 0x22264a049d8cfff6
    ∷ 0x32321a68ff7ef7b3 ∷ 0x57b0e50cc585b333 ∷ 0x1c08c65ba9d764e7 ∷ 0x5534c793f92f00f5
    ∷ 0x7a1ced97eafe6fe4 ∷ 0x6b8933739202599c ∷ 0x618c5f8fcadd3ff2 ∷ 0x2a8719b3e6548653
    ∷ 0x346a9ec5c4200f0c ∷ 0x7a36b8d00d0eda58 ∷ 0x844b22b75021accd ∷ 0x769737059fc5e465
    ∷ 0xdb1ba69b5019f266 ∷ 0x1777242305db9ac1 ∷ 0x491d11ad264b6ff3 ∷ 0x136198dfc57a3053
    ∷ 0x4a6cc64741eb7176 ∷ 0x14e811c97fc97650 ∷ 0x6b64667f71be386d ∷ 0x3286fcadf019eb5e
    ∷ 0x3f2591f4498e10a0 ∷ 0x674fa7c32df7867b ∷ 0xbae8ec7ee100dcf2 ∷ 0x03b2c0a20a6372a4
    ∷ 0x4c8d76b471e24474 ∷ 0x421fb6a7b8a3216b ∷ 0xc672bdb2fe8f514d ∷ 0x202af653d9aff3f5
    ∷ 0x05e5f80f9626953e ∷ 0x7b721fa3ccd42ffc ∷ 0x99d8e481c0f70479 ∷ 0x054c31746d23362b
    ∷ 0xfbef2e20430e8025 ∷ 0x60e1e3f02e7720c2 ∷ 0x161701874eb347e3 ∷ 0x363924e90cbb77a6
    ∷ 0x180f5ee1863a1a6a ∷ 0x2f79c0046ff79fe2 ∷ 0x44679866e35447f0 ∷ 0x1c64c6dd73e0d636
    ∷ 0x1d8175566341469d ∷ 0x5ba634965b8b9e87 ∷ 0x8f48744f976952a5 ∷ 0x744f28d23db94c8a
    ∷ 0xd15e84b1f232da34 ∷ 0x556f3d7aa38bee8c ∷ 0x14693c56e866ef89 ∷ 0x1564fb9a0f81eb03
    ∷ 0xe97eed56fa2b483f ∷ 0x6d3f7e01aebd1957 ∷ 0xae8f128aca3b3e45 ∷ 0x3d41e85ba2afd3a9
    ∷ 0xe4fe485e4b6d8328 ∷ 0x65c49b4c3e98098e ∷ 0xe96a00e054d6e91a ∷ 0x394a2122738cd006
    ∷ 0x715cca3dffd90785 ∷ 0x7bc3dcde15890965 ∷ 0x6dcdc47a33a148ac ∷ 0x435db9d6dbe1bd55
    ∷ 0xd74d4d6e0fd89c27 ∷ 0x25e727f6a5380553 ∷ 0xbe54127ba6c5189a ∷ 0x65c87d3c3e61939c
    ∷ 0xc34a6d122a809e2e ∷ 0x7de6b787f097eafa ∷ 0xb8f8b6e701758661 ∷ 0x10705fbf97042046
    ∷ 0x1591614e6da2d44f ∷ 0x7c74f26ec6eb070f ∷ 0x9ad98c1a50249c60 ∷ 0x6e1bbd44d64b2302
    ∷ 0x937cee76047790f9 ∷ 0x5b4ccbc70beaf690 ∷ 0x332e79ae75ae0dae ∷ 0x2e6394161d093556
    ∷ 0x4b378bf68f6849f0 ∷ 0x6c419fa0cebba72d ∷ 0x8bb431e1e273f2a4 ∷ 0x357cec80bbe024fd
    ∷ 0x83a6e913962f11a9 ∷ 0x7808df02e2523718 ∷ 0xb6690b5dabc49e13 ∷ 0x6cef23259375972a
    ∷ 0xd18ac767b5e551fc ∷ 0x5a0ba1dddb15bd36 ∷ 0x6f7923de219e3e1f ∷ 0x3ec23588db9b5cfe
    ∷ 0xa4fc23d42c83bbe0 ∷ 0x21581a00768658cd ∷ 0xa295b6e57110218e ∷ 0x3e7bbab1d15f477f
    ∷ 0x2266c03d3f0d0635 ∷ 0x4174f08a95be03b5 ∷ 0xaa1a674abb8cbeb8 ∷ 0x6bdf6ba553ae3390
    ∷ 0x8a31f824638545e2 ∷ 0x2a9e37a0f0eede53 ∷ 0x148a53d8cba69f65 ∷ 0x64c587e816d96316
    ∷ 0x777a028a47e97e93 ∷ 0x13728e46befb2e0e ∷ 0x13138b44862fa665 ∷ 0x0fca8c38a87775f6
    ∷ 0xcc44bd580dd067fa ∷ 0x40f2f7642e22d02e ∷ 0xab3ba6db80c2f728 ∷ 0x5068aa2e2d25b7f9
    ∷ 0x5a8a842c0a2923ff ∷ 0x67c39e8a1006c196 ∷ 0x8f5cb9ff55460a84 ∷ 0x2e735c20a419a518
    ∷ 0x0c6ee3fcbfdc2da4 ∷ 0x5bf6ed60a87b92bd ∷ 0x5e4ce130e8e1608f ∷ 0x0932ceb3e50028e8
    ∷ 0x793cf8a0538cbfb8 ∷ 0x4e89e2c018beb7bd ∷ 0xcaaa79642f5060de ∷ 0x542a38a4d13f0016
    ∷ 0xa1b0fd9aac663e55 ∷ 0x5158bf1f7b33c0e4 ∷ 0x060e82f65a4119fe ∷ 0x32347069a1529fc4
    ∷ 0x5c96ef69127480d5 ∷ 0x409a902134df6ffe ∷ 0xdbe8c392eb6c7013 ∷ 0x73f2c48b0e3b4a79
    ∷ 0xddf5060b937e2dff ∷ 0x1534f901278611d9 ∷ 0xf47fe29ae4fd49a7 ∷ 0x7a2c0bfe75539f29 ∷ []
